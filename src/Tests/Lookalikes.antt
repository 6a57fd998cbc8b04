-- ===== src/Tests/Lookalikes.antt =====
-- internal/threat/detector.go at concrete inputs.
use phantomcore.Base.{
  ◌≡◌, ◌≢◌, ◌↔◌, refl, true, false, none, [], ◌∷◌, map, Member, text, lower_byte, itoa,
}
use phantomcore.Distance.{damerau_levenshtein}
use phantomcore.Distance.Alignment.{alignment}
use phantomcore.Distance.Table.{damerau_levenshtein-alignment}
use phantomcore.Dns.State.{Threat}
use phantomcore.Detector.Labels.{Brand, is_infra_domain}
use phantomcore.Detector.Confusables.{confusable_skeleton}
use phantomcore.Detector.Heuristics.{
  Detector, Outside, new_detector_with_brands, set_typosquat_block, check_typosquat, analyze,
}
use phantomcore.Detector.Lookalike.{IsLookalike, label_of, full_of, check_typosquat_iff}
use phantomcore.Detector.Soundness.{IsGraded, analyze-IsGraded}

test_distance :
    (damerau_levenshtein (text "paypla") (text "paypal") ≡ 1)
    × (damerau_levenshtein (text "ca") (text "abc") ≡ 3)
    × (damerau_levenshtein (text "") (text "abc") ≡ 3)
unfolding damerau_levenshtein phantomcore.Distance.fill_rows phantomcore.Distance.first_rows
    phantomcore.Distance.next_row phantomcore.Distance.fill_row phantomcore.Distance.cell
    phantomcore.Distance.count_up phantomcore.Distance.min3 phantomcore.Distance.cost
    phantomcore.Distance.is_swap
test_distance = (refl, refl, refl)

damerau_levenshtein-alignment_example :
    damerau_levenshtein (text "paypla") (text "paypal")
    ≡ alignment (text "paypla") (text "paypal") 6 6
damerau_levenshtein-alignment_example =
    damerau_levenshtein-alignment (text "paypla") (text "paypal")

-- ASCII letters only, no punycode, and no label random enough.
abbrev pub outside : Outside
outside = record {
  lower = lower_byte;
  to_unicode = λ _. none;
  itoa = itoa;
  quoted = λ s. s;
  entropy_over = λ _ _. false;
  entropy_score = λ _ _. 0;
  entropy_text = λ _. [];
}

abbrev pub detector : Detector
detector = set_typosquat_block (new_detector_with_brands outside (text "PayPal.com." ∷ [])) true

check_typosquat_iff_example :
    (Threat.is_suspicious (check_typosquat outside detector (text "www.paypa1.com")) ≡ true) ↔ (
      (is_infra_domain (text "www.paypa1.com") ≡ false)
      × (label_of outside detector (text "www.paypa1.com") ≢ [])
      × ((b : Brand) × Member b detector.brands
          × IsLookalike detector.typo_max_distance
              (full_of outside detector (text "www.paypa1.com"))
              (map lower_byte (label_of outside detector (text "www.paypa1.com")))
              (confusable_skeleton lower_byte (label_of outside detector (text "www.paypa1.com")))
              b))
check_typosquat_iff_example = check_typosquat_iff outside detector (text "www.paypa1.com")

analyze-IsGraded_example :
    IsGraded outside detector (analyze outside detector (text "www.paypa1.com"))
analyze-IsGraded_example = analyze-IsGraded outside detector (text "www.paypa1.com")
