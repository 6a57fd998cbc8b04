-- ===== src/Upstream/Casing.antt =====
-- internal/dnsengine/case_randomize.go: the client gets its own spelling back.
use phantomcore.Base.{
  ℕ, ◌≡◌, refl, ap, Bool, true, List, [], ◌∷◌, map, arith, Text, to_lower, lower_byte, same_text,
}
use phantomcore.Message.{Rr, Question, Msg}
use phantomcore.Upstream.{
  equal_name_fold, flip_case, randomize_case, encode_questions, encode_case, restore_owner_names,
  restore_questions, restore_case,
}

lower_byte-flip_case : (c : ℕ) → lower_byte (flip_case c) ≡ lower_byte c
unfolding lower_byte flip_case
lower_byte-flip_case c = ground arith

-- Only the case of a name changes.
to_lower-randomize_case :
    (name : Text) (draws : List Bool) → to_lower (randomize_case name draws).0 ≡ to_lower name
unfolding to_lower randomize_case
to_lower-randomize_case [] draws = refl
to_lower-randomize_case (c ∷ name) [] = refl
to_lower-randomize_case (c ∷ name) (draw ∷ draws) = ground (
  arith,
  lower_byte-flip_case c,
  to_lower-randomize_case name draws,
  to_lower-randomize_case name (draw ∷ draws),
)

same_text_refl : (s t : Text) → s ≡ t → same_text s t ≡ true
same_text_refl s t h = ground (arith, h)

fold-randomize_case :
    (name : Text) (draws : List Bool) → equal_name_fold (randomize_case name draws).0 name ≡ true
unfolding equal_name_fold
fold-randomize_case name draws =
    same_text_refl (to_lower (randomize_case name draws).0) (to_lower name)
      (to_lower-randomize_case name draws)

restore_questions-encode :
    (qs : List Question) (draws : List Bool) (answer ns extra : List Rr)
    → (restore_questions
        (encode_questions qs draws)
        (map {A = Question} (λ x. x.name) qs)
        (answer, ns, extra)).0
      ≡ qs
unfolding restore_questions encode_questions
restore_questions-encode [] draws answer ns extra = refl
restore_questions-encode (q ∷ qs) draws answer ns extra =
    let left = (randomize_case q.name draws).1 in
    let rest =
      restore_questions-encode qs left (restore_owner_names answer q.name)
        (restore_owner_names ns q.name) (restore_owner_names extra q.name) in
    rw (fold-randomize_case) (ap (λ l. q ∷ l) rest)

-- Whatever the draws, a reply that echoes the questions as they were sent has them spelled as the
-- client asked them after `restoreCase0x20`.
pub restore_case-encode_case :
    (q resp : Msg) (draws : List Bool)
    → resp.question ≡ (encode_case q draws).0.question
    → (restore_case resp (encode_case q draws).1).question ≡ q.question
unfolding restore_case encode_case
restore_case-encode_case q resp draws echo =
    rw echo (restore_questions-encode q.question draws resp.answer resp.ns resp.extra)
