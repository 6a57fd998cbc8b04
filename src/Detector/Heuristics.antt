-- ===== src/Detector/Heuristics.antt =====
-- internal/threat/detector.go: the detector. Scores are in hundredths. What the code computes in
-- floating point from the Shannon entropy, and the decoder of golang.org/x/net/idna, are parameters.
use phantomcore.Base.{
  ℕ, ◌-◌, ◌*◌, Bool, true, false, ◌&&◌, Option, none, some, List, [], ◌∷◌, ◌++◌, map, length, leb,
  ltb, ◌==◌, Text, text, is_empty, same_text, contains_text, split_at, join_with, text_discrete,
  if◌then◌else◌,
}
use phantomcore.Dns.State.{Threat, no_threat}
use phantomcore.Detector.Labels.{
  init, longest_label, is_infra_domain, Brand, registrable_parts, normalize_brands,
}
use phantomcore.Detector.Confusables.{confusable_skeleton}
use phantomcore.Detector.Patterns.{matches_hex, matches_dga_mix, matches_base64, count_digits}
use phantomcore.Distance.{damerau_levenshtein}

-- `Detector`, its thresholds in the units of the parameters below.
pub record Detector : Type 0 where
  pub entropy_threshold : ℕ
  pub length_threshold : ℕ
  pub brands : List Brand
  pub typo_max_distance : ℕ
  pub block_typosquat : Bool

-- unicode.ToLower, idna.Punycode.ToUnicode, strconv.Itoa and %q, and of the entropy of a label:
-- whether it is over a threshold, its score over one, and its text.
pub record Outside : Type 0 where
  pub lower : ℕ → ℕ
  pub to_unicode : Text → Option Text
  pub itoa : ℕ → Text
  pub quoted : Text → Text
  pub entropy_over : Text → ℕ → Bool
  pub entropy_score : Text → ℕ → ℕ
  pub entropy_text : Text → Text

-- `NewDetectorWithBrands`; the entropy thresholds are in hundredths.
unfoldable pub new_detector_with_brands : Outside → List Text → Detector
new_detector_with_brands o brands = record {
  entropy_threshold = 370;
  length_threshold = 50;
  brands = normalize_brands o.lower brands;
  typo_max_distance = 2;
  block_typosquat = false;
}

-- `SetTyposquatBlock`
unfoldable pub set_typosquat_block : Detector → Bool → Detector
set_typosquat_block d block = record d { block_typosquat = block }

abbrev pub suspicion : ℕ → Text → Text → Threat
suspicion score method reason = record {
  is_suspicious = true;
  threat_score = score;
  detection_method = method;
  reason = reason;
  block = false;
}

-- `math.Min(x, 1.0)`
unfoldable pub at_most_one : ℕ → ℕ
at_most_one x = if ltb x 100 then x else 100

module _ (o : Outside) (d : Detector) where
  -- `checkEntropy`
  unfoldable pub check_entropy : Text → Threat
  unfolding at_most_one
  check_entropy label =
      let threshold = if ltb 20 (length label) then 350 else d.entropy_threshold in
      if ltb (length label) 6
      then no_threat
      else if o.entropy_over label threshold
      then suspicion (at_most_one (o.entropy_score label threshold)) (text "entropy")
          (text "high entropy domain (randomness score: " ++ (o.entropy_text label ++ text ")"))
      else no_threat

  -- `checkDGAPattern`
  unfoldable pub check_dga_pattern : Text → Text → Threat
  check_dga_pattern label domain =
      let lowered = map o.lower label in
      if is_infra_domain domain
      then no_threat
      else if matches_hex lowered
      then suspicion 90 (text "dga_hex") (text "hexadecimal domain pattern (possible C2 beacon)")
      else if matches_dga_mix lowered && ltb 10 (length lowered)
      then suspicion 70 (text "dga_pattern") (text "algorithmic domain pattern (possible DGA)")
      else if matches_base64 label
      then suspicion 80 (text "dga_base64")
          (text "base64-encoded domain pattern (possible data exfiltration)")
      else if ltb 8 (length lowered) && ltb (length lowered) (2 * count_digits lowered)
      then suspicion 60 (text "dga_digits") (text "high digit ratio in domain (possible DGA)")
      else no_threat

  -- `checkLength`: (len - threshold) / 50 is twice as many hundredths.
  unfoldable pub check_length : Text → Threat
  unfolding at_most_one
  check_length domain =
      if ltb d.length_threshold (length domain)
      then suspicion (at_most_one (2 * (length domain - d.length_threshold))) (text "length")
          (text "unusually long domain name (possible DNS tunneling)")
      else no_threat

  -- `checkExcessiveSubdomains`
  unfoldable pub check_excessive_subdomains : Text → Threat
  check_excessive_subdomains domain =
      if ltb 5 (length (split_at b'.' domain))
      then suspicion 50 (text "subdomain_depth")
          (text "excessive subdomain depth (possible DNS tunneling)")
      else no_threat

  -- `decodePunycodeDomain`
  unfoldable pub decode_punycode_domain : Text → Text
  unfolding contains_text
  decode_punycode_domain domain =
      if contains_text domain (text "xn--")
      then elim (o.to_unicode domain) [ none ↦ domain | some u ↦ u ]
      else domain

  -- `typosquatResult`
  unfoldable pub typosquat_result : Text → Text → Threat
  typosquat_result brand why = record {
    is_suspicious = true;
    threat_score = 85;
    detection_method = text "typosquat";
    reason =
        text "lookalike of protected brand "
        ++ (o.quoted brand ++ (text " (" ++ (why ++ text ")")));
    block = d.block_typosquat;
  }

  -- The loop of `checkTyposquat` over the brands, for a registrable domain, its lowered label and
  -- its skeleton.
  unfoldable pub match_brands : (full_reg lower_label skel : Text) → List Brand → Threat
  unfolding typosquat_result text_discrete
  match_brands full_reg lower_label skel [] = no_threat
  match_brands full_reg lower_label skel (b ∷ brands) =
      let rest = match_brands full_reg lower_label skel brands in
      let dist = damerau_levenshtein skel b.label in
      if same_text full_reg b.domain
      then rest
      else if same_text skel b.label
      then if same_text lower_label b.label
        then rest
        else typosquat_result b.domain (text "homoglyph/confusable lookalike")
      else if leb 1 dist && leb dist d.typo_max_distance
      then typosquat_result b.domain
          (text "edit distance " ++ (o.itoa dist ++ text " from brand label"))
      else rest

  -- `checkTyposquat`
  unfoldable pub check_typosquat : Text → Threat
  unfolding match_brands decode_punycode_domain
  check_typosquat domain =
      let (label, tld) = registrable_parts o.lower (decode_punycode_domain domain) in
      let lower_label = map o.lower label in
      let skel = confusable_skeleton o.lower label in
      if length d.brands == 0
      then no_threat
      else if is_infra_domain domain
      then no_threat
      else if is_empty label
      then no_threat
      else if is_empty skel
      then no_threat
      else match_brands (lower_label ++ b'.' ∷ tld) lower_label skel d.brands

  -- `if r := check; r.IsSuspicious { return r }`
  unfoldable pub or_next : Threat → Threat → Threat
  or_next r next = if r.is_suspicious then r else next

  -- The label, or the labels, that the heuristics look at.
  unfoldable pub analysis_target : List Text → Text
  analysis_target parts =
      if leb 3 (length parts) then longest_label (init parts) else join_with b'.' (init parts)

  -- `Analyze`
  unfoldable pub analyze : Text → Threat
  unfolding check_typosquat check_dga_pattern check_entropy check_length check_excessive_subdomains
      or_next analysis_target
  analyze domain =
      let parts = split_at b'.' domain in
      let target = analysis_target parts in
      if leb (length parts) 1
      then no_threat
      else or_next (check_typosquat domain) (
          or_next (check_dga_pattern target domain) (
            or_next (check_entropy target) (
              or_next (check_length domain)
                (or_next (check_excessive_subdomains domain) no_threat))))
