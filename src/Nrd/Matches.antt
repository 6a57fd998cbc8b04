-- ===== src/Nrd/Matches.antt =====
-- internal/nrd/set.go: a set matches a name when the feed lists it or one of its parents.
use phantomcore.Base.{
  ◌≡◌, ◌≢◌, refl, sym, ap, ◌∙◌, ◌⊎◌, ◌↔◌, inl, inr, true, false, List, [], ◌∷◌, length, ◌==◌, arith,
  Text, is_empty, Member, split_at, join_with, lookup, lookup-insert, text_discrete, ite,
  if◌then◌else◌, Bool-cases,
}
use phantomcore.Nrd.{NrdSet, normalize, add, add_all, new_set, has, contains_from, contains}

-- The name and its parents, without the last label alone.
abbrev pub parents : List Text → List Text
parents [] = []
parents (x ∷ []) = []
parents (x ∷ y ∷ parts) = join_with b'.' (x ∷ y ∷ parts) ∷ parents (y ∷ parts)

-- The feed lists the name, up to normalization.
abbrev pub IsListed : Text → List Text → Type 0
IsListed n ds = (d : Text) × Member d ds × (normalize d ≡ n) × (is_empty n ≡ false)

has-add :
    (s : NrdSet) (d n : Text)
    → has (add s d) n ≡ (
        if is_empty (normalize d)
        then has s n
        else ite (text_discrete (normalize d) n) true (has s n))
unfolding has add
has-add s d n = ground (arith, lookup-insert text_discrete (normalize d) n tt s)

-- what one round of the loop adds
added :
    (s : NrdSet) (d n : Text)
    → (has (add s d) n ≡ true) ↔ ((has s n ≡ true) ⊎ (normalize d ≡ n) × (is_empty n ≡ false))
added s d n = elim (Bool-cases (is_empty (normalize d))) [
  | inl e ↦ (
    λ h. inl (ground (arith, h, e, has-add s d n)),
    λ h. elim h [
      | inl k ↦ ground (arith, k, e, has-add s d n)
      | inr (k, l) ↦ absurd (ground (arith, k, l, e))
    ],
  )
  | inr e ↦ elim (text_discrete (normalize d) n) [
    | yes q ↦ (λ h. inr (q, ground (arith, q, e)), λ h. ground (arith, q, e, has-add s d n))
    | no q ↦ (
      λ h. inl (ground (arith, h, q, e, has-add s d n)),
      λ h. elim h [ inl k ↦ ground (arith, k, q, e, has-add s d n) | inr (k, l) ↦ absurd (q k) ],
    )
  ]
]

has-add_all :
    (s : NrdSet) (ds : List Text) (n : Text)
    → (has (add_all s ds) n ≡ true) ↔ ((has s n ≡ true) ⊎ IsListed n ds)
unfolding add_all
has-add_all s [] n = (λ h. inl h, λ h. elim h [ inl k ↦ k | inr (d, m, e, f) ↦ absurd m ])
has-add_all s (d ∷ ds) n =
    let (f, g) = has-add_all (add s d) ds n in
    let (i, j) = added s d n in
    (
      λ h. elim (f h) [
        | inl k ↦ elim (i k) [ inl l ↦ inl l | inr (q, e) ↦ inr (d, inl refl, q, e) ]
        | inr (d', m, q, e) ↦ inr (d', inr m, q, e)
      ],
      λ h. elim h [
        | inl k ↦ g (inl (j (inl k)))
        | inr (d', m, q, e) ↦ elim m [
          | inl same ↦ g (inl (j (inr (ap normalize (sym same) ∙ q, e))))
          | inr m' ↦ g (inr (d', m', q, e))
        ]
      ],
    )

contains_from_iff :
    (s : NrdSet) (parts : List Text)
    → (contains_from s parts ≡ true) ↔ ((n : Text) × Member n (parents parts) × (has s n ≡ true))
unfolding contains_from
contains_from_iff s [] = (λ h. cc, λ (n, m, k). absurd m)
contains_from_iff s (x ∷ []) = (λ h. cc, λ (n, m, k). absurd m)
contains_from_iff s (x ∷ y ∷ parts) =
    let (f, g) = contains_from_iff s (y ∷ parts) in
    let first = join_with b'.' (x ∷ y ∷ parts) in
    (
      λ h. elim (Bool-cases (has s first)) [
        | inl e ↦ (first, inl refl, e)
        | inr e ↦ let (n, m, k) = f (ground (arith, h, e)) in (n, inr m, k)
      ],
      λ (n, m, k). elim m [
        | inl e ↦ let hit : has s first ≡ true = ap (has s) (sym e) ∙ k in ground (arith, hit)
        | inr m' ↦ let rest = g (n, m', k) in ground (arith, rest)
      ],
    )

has_nil : (n : Text) → has [] n ≢ true
unfolding has lookup
has_nil n h = cc

-- the two early returns only skip searches that find nothing
empty_lem :
    (s : NrdSet) (parts : List Text) → (length s == 0) ≡ true → contains_from s parts ≡ false
unfolding contains_from has lookup
empty_lem [] [] h = refl
empty_lem [] (x ∷ []) h = refl
empty_lem [] (x ∷ y ∷ parts) h = ground (arith, empty_lem [] (y ∷ parts) refl)
empty_lem (x ∷ s) parts h = absurd (ground arith)

blank_lem : (s : NrdSet) (d : Text) → is_empty d ≡ true → contains_from s (split_at b'.' d) ≡ false
unfolding contains_from split_at
blank_lem s [] h = refl
blank_lem s (c ∷ d) h = cc

-- A set that is made from a feed contains a name exactly when the feed lists, up to case, blanks
-- and a final dot, the name itself or a parent of it with at least two labels.
pub contains-new_set_iff :
    (ds : List Text) (domain : Text)
    → (contains (new_set ds) domain ≡ true)
      ↔ ((n : Text) × Member n (parents (split_at b'.' (normalize domain))) × IsListed n ds)
unfolding contains new_set
contains-new_set_iff ds domain =
    let (f, g) = contains_from_iff (add_all [] ds) (split_at b'.' (normalize domain)) in
    (
      λ h.
          let found : contains_from (add_all [] ds) (split_at b'.' (normalize domain)) ≡ true =
            ground (arith, h) in
          let (n, m, k) = f found in
          elim ((has-add_all [] ds n).0 k) [
            | inl held ↦ absurd (has_nil n held)
            | inr l ↦ (n, m, l)
          ],
      λ (n, m, l).
          let found = g (n, m, (has-add_all [] ds n).1 (inr l)) in
          let e = empty_lem (add_all [] ds) (split_at b'.' (normalize domain)) in
          let b = blank_lem (add_all [] ds) (normalize domain) in ground (arith, found, e, b),
    )
