-- ===== src/Alert/Firing.antt =====
-- internal/alert/alert.go: when an alert fires.
use phantomcore.Base.{
  ℕ, ◌≤◌, ◌≡◌, ◌≢◌, ◌↔◌, inl, inr, true, false, Option, none, length, ltb, ltb_ℤ, pos_part, pos,
  arith, Text, is_empty, Bool-cases,
}
use phantomcore.Alert.{DeviceInfo, Alerter, recent_hits, record_blocked}

-- Alerting is on, for a client whose address is known.
abbrev pub IsCounted : Alerter → Text → Type 0
IsCounted a ip = (ltb_ℤ (pos 0) a.threshold ≡ true) × (is_empty ip ≡ false)

-- A blocked hit fires exactly when alerting is on, the client's address is known, and with this hit
-- its hits within the window reach the threshold.
pub record_blocked_fires_iff :
    (resolver : Option (Text → Option DeviceInfo)) (ip domain : Text) (now : ℕ) (a : Alerter)
    → ((record_blocked resolver ip domain now a).0 ≢ none)
      ↔ (IsCounted a ip × (pos_part a.threshold ≤ length (recent_hits a ip now)))
unfolding record_blocked
record_blocked_fires_iff resolver ip domain now a = elim (Bool-cases (ltb_ℤ (pos 0) a.threshold)) [
  | inl on ↦ elim (Bool-cases (is_empty ip)) [
    | inl e ↦ (λ h. absurd (h (ground (arith, on, e))), λ (c, n). absurd (ground (arith, c, e)))
    | inr e ↦ elim (Bool-cases (ltb (length (recent_hits a ip now)) (pos_part a.threshold))) [
      | inl few ↦
          (λ h. absurd (h (ground (arith, on, e, few))), λ (c, n). absurd (ground (arith, few, n)))
      | inr many ↦
          (λ h. ((on, e), ground (arith, many)), λ (c, n) q. ground (arith, on, e, many, q))
    ]
  ]
  | inr off ↦ (λ h. absurd (h (ground (arith, off))), λ (c, n). absurd (ground (arith, off, c)))
]
