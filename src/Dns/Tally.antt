-- ===== src/Dns/Tally.antt =====
-- internal/dnsengine/engine.go: what the answers of the handler amount to in messages, exports and
-- questions upstream, and how the branches of a stage combine.
use phantomcore.Base.{
  ℕ, ◌≡◌, refl, ◌∙◌, Bool, true, false, Option, none, some, [], ◌∷◌, ◌++◌, Text, text, inl, inr,
  Option-cases, arith, if◌then◌else◌,
}
use phantomcore.Message.{Msg}
use phantomcore.Policy.Types.{Action, allow, deny, redirect}
use phantomcore.Dns.State.{Threat, Wiring, Engine, write, Call}
use phantomcore.Dns.Forward.{forward_upstream}
use phantomcore.Dns.Answering.{log_query, record_blocked, respond_blocked}
use phantomcore.Dns.Process.{override_block}
use phantomcore.Dns.Allowing.{
  ThreatAction, enforce, leave_alone, dry_run, Handled, answer_with, block_with, block_counted,
  forward_and_log, conclude,
}
use phantomcore.Dns.Effects.{
  count, is_write, is_ask, is_export, is_metric, append-Counts, write-Counts, log_query-Counts,
  record_blocked-Counts, Counts,
}

-- One exchange when there are resolvers.
unfoldable pub resolvers : Wiring → ℕ
resolvers wired = elim (wired.exchange) [ none ↦ 0 | some _ ↦ 1 ]

forward_upstream-Counts :
    (wired : Wiring) (e : Engine) (c : Call)
    → Counts (forward_upstream wired e c).0 0 (resolvers wired) 0 0
unfolding count is_write is_ask is_export is_metric forward_upstream resolvers
forward_upstream-Counts wired e c = elim (Option-cases (wired.exchange)) [
  | inl v ↦ rw v (refl, refl, refl, refl)
  | inr (ex, v) ↦ rw v (refl, refl, refl, refl)
]

-- One message and one export, no metric yet, and `n` questions upstream.
pub record Tallies (h : Handled) (n : ℕ) : Type 0 where
  pub tallied : Counts h.effects 1 n 1 0

pub answer_with-Tallies :
    (e : Engine) (c : Call) (action reason : Text) (tr : Threat) (m : Msg)
    → Tallies (answer_with e c action reason tr m) 0
unfolding answer_with
answer_with-Tallies e c action reason threat m = record {
  tallied =
      append-Counts (log_query e c action reason threat) (write m ∷ [])
        (log_query-Counts e c action reason threat) (write-Counts m);
}

pub block_with-Tallies :
    (wired : Wiring) (e : Engine) (c : Call) (reason : Text) (tr : Threat)
    → Tallies (block_with wired e c reason tr) 0
unfolding block_with
block_with-Tallies wired e c reason threat =
    answer_with-Tallies e c (text "block") reason threat (respond_blocked wired c)

pub block_counted-Tallies :
    (wired : Wiring) (e : Engine) (c : Call) (reason : Text) (tr : Threat)
    → Tallies (block_counted wired e c reason tr) 0
unfolding block_counted
block_counted-Tallies wired e c reason threat =
    let out = write (respond_blocked wired c) ∷ [] in
    record {
      tallied =
          append-Counts (log_query e c (text "block") reason threat)
            (record_blocked wired e c ++ out) (log_query-Counts e c (text "block") reason threat)
            (append-Counts (record_blocked wired e c) out (record_blocked-Counts wired e c)
              (write-Counts (respond_blocked wired c)));
    }

pub forward_and_log-Tallies :
    (wired : Wiring) (e : Engine) (c : Call) (action reason : Text) (tr : Threat)
    → Tallies (forward_and_log wired e c action reason tr) (resolvers wired)
unfolding forward_and_log
forward_and_log-Tallies wired e c action reason threat =
    let (action', reason', threat') =
      conclude (forward_upstream wired e c).1.outcome action reason threat in
    let f = (forward_upstream wired e c).1 in
    let asked =
      append-Counts (forward_upstream wired e c).0
        (write (f.reply) ∷ log_query (f.engine) c action' reason' threat')
        (forward_upstream-Counts wired e c)
        (append-Counts (write (f.reply) ∷ []) (log_query (f.engine) c action' reason' threat')
          (write-Counts (f.reply)) (log_query-Counts (f.engine) c action' reason' threat')) in
    record { tallied = ground (arith, asked) }

pub override_block-Tallies :
    (wired : Wiring) (e : Engine) (c : Call) (tr : Threat)
    → Tallies (override_block wired e c tr) (resolvers wired)
unfolding override_block
override_block-Tallies wired e c threat =
    let f = (forward_upstream wired e c).1 in
    let asked =
      append-Counts (log_query e c (text "allow") (text "allow-override") threat)
        ((forward_upstream wired e c).0 ++ (write (f.reply) ∷ []))
        (log_query-Counts e c (text "allow") (text "allow-override") threat)
        (append-Counts (forward_upstream wired e c).0 (write (f.reply) ∷ [])
          (forward_upstream-Counts wired e c) (write-Counts (f.reply))) in
    record { tallied = ground (arith, asked) }

abbrev pub is_some : {A : Type 0} → Option A → Bool
is_some none = false
is_some (some _) = true

pub Tallies-if :
    (b : Bool) {m n : ℕ} {x y : Handled}
    → Tallies x m
    → Tallies y n
    → Tallies (if b then x else y) (if b then m else n)
Tallies-if true h k = h
Tallies-if false h k = k

pub Tallies-option :
    {A : Type 0} (o : Option A) (y : Handled) (f : A → Handled) {m n : ℕ}
    → Tallies y m
    → ((x : A) → Tallies (f x) n)
    → Tallies (elim o [ none ↦ y | some x ↦ f x ]) (if is_some o then n else m)
Tallies-option none y f h k = h
Tallies-option (some x) y f h k = k x

pub Tallies-cases :
    {A : Type 0} (o : Option A) (y : Handled) (f : A → Handled) (n : A → ℕ) {m : ℕ}
    → Tallies y m
    → ((x : A) → Tallies (f x) (n x))
    → Tallies (elim o [ none ↦ y | some x ↦ f x ]) (elim o [ none ↦ m | some x ↦ n x ])
Tallies-cases none y f n h k = h
Tallies-cases (some x) y f n h k = k x

pub Tallies-to : {h : Handled} {m n : ℕ} → Tallies h m → m ≡ n → Tallies h n
Tallies-to h e = let (w, a, x, t) = h.tallied in record { tallied = (w, a ∙ e, x, t) }

-- The threat threshold blocks, or the rest decides.
pub Tallies-threat :
    (action : ThreatAction) (x y : Handled) {m n : ℕ}
    → Tallies x m
    → Tallies y n
    → Tallies
        (elim action [ leave_alone ↦ y | dry_run ↦ y | enforce ↦ x ])
        (elim action [ leave_alone ↦ n | dry_run ↦ n | enforce ↦ m ])
Tallies-threat leave_alone x y h k = k
Tallies-threat dry_run x y h k = k
Tallies-threat enforce x y h k = h

-- The policy switch: a denial and a redirect ask nobody.
pub Tallies-switch :
    (action : Action) (x y z : Handled) {n : ℕ}
    → Tallies x 0
    → Tallies y 0
    → Tallies z n
    → Tallies
        (elim action [ deny ↦ x | redirect ↦ y | allow ↦ z ])
        (elim action [ deny ↦ 0 | redirect ↦ 0 | allow ↦ n ])
Tallies-switch deny x y z hx hy hz = hx
Tallies-switch redirect x y z hx hy hz = hy
Tallies-switch allow x y z hx hy hz = hz
