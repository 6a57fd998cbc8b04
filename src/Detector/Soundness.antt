-- ===== src/Detector/Soundness.antt =====
-- internal/threat/detector.go: what Analyze can answer.
use phantomcore.Base.{
  ℕ, ◌-◌, ◌++◌, ◌*◌, ◌≤◌, ◌≡◌, refl, Bool, true, false, ◌&&◌, List, [], ◌∷◌, map, length, leb, ltb,
  Text, text, arith, split_at, same_text, is_empty, ◌==◌, if◌then◌else◌,
}
use phantomcore.Distance.{damerau_levenshtein}
use phantomcore.Dns.State.{Threat, no_threat}
use phantomcore.Detector.Labels.{Brand, is_infra_domain}
use phantomcore.Detector.Lookalike.{label_of, full_of}
use phantomcore.Detector.Confusables.{confusable_skeleton}
use phantomcore.Detector.Heuristics.{
  Detector, Outside, at_most_one, suspicion, check_entropy, check_dga_pattern, check_length,
  check_excessive_subdomains, typosquat_result, match_brands, check_typosquat, or_next,
  analysis_target, analyze,
}

module _ (o : Outside) (d : Detector) where
  -- A verdict with a score between 0 and 1 that blocks only as a typosquat and only when the
  -- detector is set to block, and that carries nothing when it is not suspicious.
  pub record IsGraded (r : Threat) : Type 0 where
    pub score : r.threat_score ≤ 100
    pub blocks :
        r.block ≡ true → (r.detection_method ≡ text "typosquat") × (d.block_typosquat ≡ true)
    pub clean : r.is_suspicious ≡ false → r ≡ no_threat

  no_threat-IsGraded : IsGraded no_threat
  no_threat-IsGraded = record { score = omega arith; blocks = λ h. cc; clean = λ h. refl }

  suspicion-IsGraded : (n : ℕ) (m r : Text) → n ≤ 100 → IsGraded (suspicion n m r)
  suspicion-IsGraded n m r h = record { score = h; blocks = λ e. cc; clean = λ e. cc }

  if-IsGraded : (b : Bool) {r s : Threat} → IsGraded r → IsGraded s → IsGraded (if b then r else s)
  if-IsGraded true h k = h
  if-IsGraded false h k = k

  at_most_one-le : (x : ℕ) → at_most_one x ≤ 100
  unfolding at_most_one
  at_most_one-le x = ground arith

  typosquat_result-IsGraded : (brand why : Text) → IsGraded (typosquat_result o d brand why)
  unfolding typosquat_result
  typosquat_result-IsGraded brand why = record {
    score = omega arith;
    blocks = λ h. (refl, h);
    clean = λ h. cc;
  }

  match_brands-IsGraded :
      (full lowered skel : Text) (bs : List Brand)
      → IsGraded (match_brands o d full lowered skel bs)
  unfolding match_brands
  match_brands-IsGraded full lowered skel [] = no_threat-IsGraded
  match_brands-IsGraded full lowered skel (b ∷ bs) =
      let rest = match_brands-IsGraded full lowered skel bs in
      let hit : (why : Text) → IsGraded (typosquat_result o d b.domain why) =
        typosquat_result-IsGraded b.domain in
      let dist = damerau_levenshtein skel b.label in
      if-IsGraded (same_text full b.domain) rest (
        if-IsGraded (same_text skel b.label)
          (if-IsGraded (same_text lowered b.label) rest
            (hit (text "homoglyph/confusable lookalike")))
          (if-IsGraded (leb 1 dist && leb dist d.typo_max_distance)
            (hit (text "edit distance " ++ (o.itoa dist ++ text " from brand label"))) rest))

  check_typosquat-IsGraded : (domain : Text) → IsGraded (check_typosquat o d domain)
  unfolding check_typosquat
  check_typosquat-IsGraded domain =
      let label = label_of o d domain in
      let skel = confusable_skeleton o.lower label in
      let rest = match_brands-IsGraded (full_of o d domain) (map o.lower label) skel d.brands in
      if-IsGraded (length d.brands == 0) no_threat-IsGraded (
        if-IsGraded (is_infra_domain domain) no_threat-IsGraded (
          if-IsGraded (is_empty label) no_threat-IsGraded
            (if-IsGraded (is_empty skel) no_threat-IsGraded rest)))

  check_dga_pattern-IsGraded : (label domain : Text) → IsGraded (check_dga_pattern o d label domain)
  unfolding check_dga_pattern
  check_dga_pattern-IsGraded label domain = if-IsGraded _ no_threat-IsGraded (
      if-IsGraded _
        (suspicion-IsGraded 90 (text "dga_hex")
          (text "hexadecimal domain pattern (possible C2 beacon)") (omega arith))
        (if-IsGraded _
          (suspicion-IsGraded 70 (text "dga_pattern")
            (text "algorithmic domain pattern (possible DGA)") (omega arith))
          (if-IsGraded _
            (suspicion-IsGraded 80 (text "dga_base64")
              (text "base64-encoded domain pattern (possible data exfiltration)") (omega arith))
            (if-IsGraded _
              (suspicion-IsGraded 60 (text "dga_digits")
                (text "high digit ratio in domain (possible DGA)") (omega arith))
              no_threat-IsGraded))))

  check_entropy-IsGraded : (label : Text) → IsGraded (check_entropy o d label)
  unfolding check_entropy
  check_entropy-IsGraded label =
      let threshold = if ltb 20 (length label) then 350 else d.entropy_threshold in
      if-IsGraded _ no_threat-IsGraded (
        if-IsGraded (o.entropy_over label threshold)
          (suspicion-IsGraded _ (text "entropy")
            (text "high entropy domain (randomness score: " ++ (o.entropy_text label ++ text ")"))
            (at_most_one-le (o.entropy_score label threshold)))
          no_threat-IsGraded)

  check_length-IsGraded : (domain : Text) → IsGraded (check_length o d domain)
  unfolding check_length
  check_length-IsGraded domain =
      if-IsGraded (ltb d.length_threshold (length domain))
        (suspicion-IsGraded _ (text "length")
          (text "unusually long domain name (possible DNS tunneling)")
          (at_most_one-le (2 * (length domain - d.length_threshold))))
        no_threat-IsGraded

  check_excessive_subdomains-IsGraded :
      (domain : Text) → IsGraded (check_excessive_subdomains o d domain)
  unfolding check_excessive_subdomains
  check_excessive_subdomains-IsGraded domain =
      if-IsGraded _
        (suspicion-IsGraded 50 (text "subdomain_depth")
          (text "excessive subdomain depth (possible DNS tunneling)") (omega arith))
        no_threat-IsGraded

  or_next-IsGraded : (r s : Threat) → IsGraded r → IsGraded s → IsGraded (or_next o d r s)
  unfolding or_next
  or_next-IsGraded r s h k = if-IsGraded r.is_suspicious h k

  -- Every verdict of Analyze has a score between 0 and 1, blocks only as a typosquat and only when
  -- the detector is set to block, and is the empty result when it is not suspicious.
  pub analyze-IsGraded : (domain : Text) → IsGraded (analyze o d domain)
  unfolding analyze
  analyze-IsGraded domain =
      let target = analysis_target o d (split_at b'.' domain) in
      let empty = no_threat-IsGraded in
      if-IsGraded _ empty (
        or_next-IsGraded _ _ (check_typosquat-IsGraded domain) (
          or_next-IsGraded _ _ (check_dga_pattern-IsGraded target domain) (
            or_next-IsGraded _ _ (check_entropy-IsGraded target) (
              or_next-IsGraded _ _ (check_length-IsGraded domain)
                (or_next-IsGraded _ _ (check_excessive_subdomains-IsGraded domain) empty)))))
