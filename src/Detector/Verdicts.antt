-- ===== src/Detector/Verdicts.antt =====
-- internal/threat/detector.go: which names Analyze finds suspicious.
use phantomcore.Base.{
  ℕ, ◌*◌, ◌≡◌, refl, Bool, not, ◌&&◌, ◌||◌, map, length, leb, ltb, Text, arith, split_at,
  if◌then◌else◌,
}
use phantomcore.Dns.State.{Threat, no_threat}
use phantomcore.Detector.Labels.{is_infra_domain}
use phantomcore.Detector.Patterns.{matches_hex, matches_dga_mix, matches_base64, count_digits}
use phantomcore.Detector.Heuristics.{
  Detector, Outside, check_entropy, check_dga_pattern, check_length, check_excessive_subdomains,
  check_typosquat, or_next, analysis_target, analyze,
}

module _ (o : Outside) (d : Detector) where
  -- Whether a label looks generated, as one condition.
  abbrev pub looks_generated : Text → Text → Bool
  looks_generated label domain =
      let lowered = map o.lower label in
      not (is_infra_domain domain)
      && (matches_hex lowered
          || matches_dga_mix lowered && ltb 10 (length lowered)
          || matches_base64 label
          || ltb 8 (length lowered) && ltb (length lowered) (2 * count_digits lowered))

  abbrev pub looks_random : Text → Bool
  looks_random label =
      leb 6 (length label)
      && o.entropy_over label (if ltb 20 (length label) then 350 else d.entropy_threshold)

  check_dga_pattern_lem :
      (label domain : Text)
      → Threat.is_suspicious (check_dga_pattern o d label domain) ≡ looks_generated label domain
  unfolding check_dga_pattern
  check_dga_pattern_lem label domain = ground arith

  check_entropy_lem :
      (label : Text) → Threat.is_suspicious (check_entropy o d label) ≡ looks_random label
  unfolding check_entropy
  check_entropy_lem label = ground arith

  check_length_lem :
      (domain : Text)
      → Threat.is_suspicious (check_length o d domain) ≡ ltb d.length_threshold (length domain)
  unfolding check_length
  check_length_lem domain = ground arith

  check_excessive_subdomains_lem :
      (domain : Text)
      → Threat.is_suspicious (check_excessive_subdomains o d domain)
        ≡ ltb 5 (length (split_at b'.' domain))
  unfolding check_excessive_subdomains
  check_excessive_subdomains_lem domain = ground arith

  or_next_lem :
      (r s : Threat) (b c : Bool)
      → r.is_suspicious ≡ b
      → s.is_suspicious ≡ c
      → Threat.is_suspicious (or_next o d r s) ≡ b || c
  unfolding or_next
  or_next_lem r s b c h k = ground arith

  or_next_last :
      (r : Threat) (b : Bool)
      → r.is_suspicious ≡ b
      → Threat.is_suspicious (or_next o d r no_threat) ≡ b
  unfolding or_next
  or_next_last r b h = ground arith

  several_labels :
      (n : ℕ) (r : Threat) (b : Bool)
      → r.is_suspicious ≡ b
      → Threat.is_suspicious (if leb n 1 then no_threat else r) ≡ leb 2 n && b
  several_labels n r b h = ground arith

  -- Analyze flags a name exactly when it has at least two labels and is a lookalike, has a target
  -- label that looks generated or random, is longer than the threshold, or has more than five labels.
  pub analyze_lem :
      (domain : Text)
      → Threat.is_suspicious (analyze o d domain)
        ≡ leb 2 (length (split_at b'.' domain))
          && (Threat.is_suspicious (check_typosquat o d domain)
              || (looks_generated (analysis_target o d (split_at b'.' domain)) domain
                  || (looks_random (analysis_target o d (split_at b'.' domain))
                      || (ltb d.length_threshold (length domain)
                          || ltb 5 (length (split_at b'.' domain))))))
  unfolding analyze
  analyze_lem domain =
      let target = analysis_target o d (split_at b'.' domain) in
      let r5 = check_excessive_subdomains o d domain in
      let r4 = or_next o d r5 no_threat in
      let r3 = or_next o d (check_length o d domain) r4 in
      let r2 = or_next o d (check_entropy o d target) r3 in
      let r1 = or_next o d (check_dga_pattern o d target domain) r2 in
      let h4 = or_next_last r5 _ (check_excessive_subdomains_lem domain) in
      let h3 = or_next_lem (check_length o d domain) r4 _ _ (check_length_lem domain) h4 in
      let h2 = or_next_lem (check_entropy o d target) r3 _ _ (check_entropy_lem target) h3 in
      let h1 =
        or_next_lem (check_dga_pattern o d target domain) r2 _ _
          (check_dga_pattern_lem target domain) h2 in
      let h0 = or_next_lem (check_typosquat o d domain) r1 _ _ refl h1 in
      several_labels (length (split_at b'.' domain)) (or_next o d (check_typosquat o d domain) r1) _
        h0
