-- ===== src/Detector/Lookalike.antt =====
-- internal/threat/detector.go: what checkTyposquat flags.
use phantomcore.Base.{
  ℕ, ◌≤◌, ◌≡◌, ◌≢◌, ◌↔◌, ◌⊎◌, inl, inr, refl, ◌∙◌, Bool, true, false, List, [], ◌∷◌, ◌++◌, map,
  length, Text, is_empty, same_text_yes, same_text_no, text_discrete, Member, arith, ◌==◌,
  Bool-cases, leb, leb→le, subst, if◌then◌else◌,
}
use phantomcore.Dns.State.{Threat, no_threat}
use phantomcore.Detector.Labels.{Brand, is_infra_domain, registrable_parts}
use phantomcore.Detector.Confusables.{confusable_skeleton}
use phantomcore.Detector.Heuristics.{
  Detector, Outside, match_brands, typosquat_result, check_typosquat, decode_punycode_domain,
}
use phantomcore.Distance.{damerau_levenshtein}
use phantomcore.Distance.Alignment.{alignment}
use phantomcore.Distance.Table.{damerau_levenshtein-alignment}
use phantomcore.Distance.Zero.{damerau_levenshtein-pos}

leb_yes : (a b : ℕ) → a ≤ b → leb a b ≡ true
leb_yes a b h = ground arith

leb_no : (a b : ℕ) → (a ≤ b → ⊥) → leb a b ≡ false
leb_no a b h = ground arith

-- A registrable domain, with the lowered label and the skeleton, that passes for a brand within a
-- number of edits.
abbrev pub IsLookalike : (within : ℕ) (full_reg lower_label skel : Text) → Brand → Type 0
IsLookalike within full_reg lower_label skel b =
    (full_reg ≢ b.domain)
    × ((skel ≡ b.label) × (lower_label ≢ b.label)
        ⊎ (skel ≢ b.label) × (alignment skel b.label (length skel) (length b.label) ≤ within))

module _ (o : Outside) (d : Detector) (full_reg lower_label skel : Text) where
  abbrev Fits : Brand → Type 0
  Fits = IsLookalike d.typo_max_distance full_reg lower_label skel

  match_brands-Fits :
      (b : Brand) (bs : List Brand)
      → Fits b × (Threat.is_suspicious (match_brands o d full_reg lower_label skel (b ∷ bs)) ≡ true)
        ⊎ (Fits b → ⊥)
          × (match_brands o d full_reg lower_label skel (b ∷ bs)
              ≡ match_brands o d full_reg lower_label skel bs)
  unfolding match_brands typosquat_result
  match_brands-Fits b bs = elim (text_discrete full_reg b.domain) [
    | yes e ↦ inr (λ f. f.0 e, rw (same_text_yes full_reg b.domain e) refl)
    | no n ↦ elim (text_discrete skel b.label) [
      | yes e ↦ elim (text_discrete lower_label b.label) [
        | yes e' ↦ inr (
          λ f. elim f.1 [ inl (g, k) ↦ k e' | inr (g, k) ↦ g e ],
          rw
              (
                same_text_no full_reg b.domain n,
                same_text_yes skel b.label e,
                same_text_yes lower_label b.label e',
              )
              refl,
        )
        | no n' ↦ inl (
          (n, inl (e, n')),
          rw
              (
                same_text_no full_reg b.domain n,
                same_text_yes skel b.label e,
                same_text_no lower_label b.label n',
              )
              refl,
        )
      ]
      | no n' ↦
          let near =
            leb_yes 1 (damerau_levenshtein skel b.label)
              (damerau_levenshtein-pos skel b.label n') in
          let dist = damerau_levenshtein-alignment skel b.label in
          elim (Bool-cases (leb (damerau_levenshtein skel b.label) d.typo_max_distance)) [
            | inl h ↦ inl (
              (n, inr (n', rw dist at (leb→le _ _ h))),
              rw (same_text_no full_reg b.domain n, same_text_no skel b.label n', near, h) refl,
            )
            | inr h ↦ inr (
              λ f. elim f.1 [ inl (g, k) ↦ n' g | inr (g, k) ↦ ground (arith, k, h, dist) ],
              rw (same_text_no full_reg b.domain n, same_text_no skel b.label n', near, h) refl,
            )
          ]
    ]
  ]

  match_brands_iff :
      (bs : List Brand)
      → (Threat.is_suspicious (match_brands o d full_reg lower_label skel bs) ≡ true)
        ↔ ((b : Brand) × Member b bs × Fits b)
  unfolding match_brands
  match_brands_iff [] = (λ h. cc, λ (b, m, f). absurd m)
  match_brands_iff (b ∷ bs) =
      let (f, g) = match_brands_iff bs in
      elim (match_brands-Fits b bs) [
        | inl (k, s) ↦ (λ h. (b, inl refl, k), λ h. s)
        | inr (k, s) ↦ (
          λ h. let (c, m, l) = f (rw s at h) in (c, inr m, l),
          λ (c, m, l). elim m [
            | inl e ↦ absurd (k (subst Fits e l))
            | inr m' ↦ rw s (g (c, m', l))
          ],
        )
      ]

guarded :
    (a b c e : Bool) (r : Threat)
    → (Threat.is_suspicious (
          if a
          then no_threat
          else if b
          then no_threat
          else if c
          then no_threat
          else if e
          then no_threat
          else r)
        ≡ true)
      ↔ ((a ≡ false) × (b ≡ false) × (c ≡ false) × (e ≡ false) × (r.is_suspicious ≡ true))
guarded true b c e r = (λ h. cc, λ h. cc)
guarded false true c e r = (λ h. cc, λ h. cc)
guarded false false true e r = (λ h. cc, λ h. cc)
guarded false false false true r = (λ h. cc, λ h. cc)
guarded false false false false r = (λ h. (refl, refl, refl, refl, h), λ (a, b, c, e, h). h)

named_iff : (s : Text) → (is_empty s ≡ false) ↔ (s ≢ [])
named_iff [] = (λ h. cc, λ h. absurd (h refl))
named_iff (c ∷ s) = (λ h e. cc, λ h. refl)

is_empty-confusable_skeleton :
    (lower : ℕ → ℕ) (s : Text) → is_empty (confusable_skeleton lower s) ≡ is_empty s
unfolding confusable_skeleton
is_empty-confusable_skeleton lower [] = refl
is_empty-confusable_skeleton lower (c ∷ s) = refl

length-Member : (b : Brand) (bs : List Brand) → Member b bs → (length bs == 0) ≡ false
length-Member b [] m = absurd m
length-Member b (c ∷ bs) m = ground arith

module _ (o : Outside) (d : Detector) (domain : Text) where
  abbrev pub label_of : Text
  label_of = (registrable_parts o.lower (decode_punycode_domain o d domain)).0

  abbrev pub full_of : Text
  full_of =
      map o.lower label_of
      ++ b'.' ∷ (registrable_parts o.lower (decode_punycode_domain o d domain)).1

  -- A name is a lookalike exactly when it is not under a known infrastructure domain, has a
  -- registrable label, and for some brand of the watchlist, whose own domain it is not, either its
  -- skeleton is the brand's label while its lowered label is not, or its skeleton is another text
  -- within the configured edit distance of the brand's label, 0 being impossible.
  pub check_typosquat_iff : (Threat.is_suspicious (check_typosquat o d domain) ≡ true) ↔ (
      (is_infra_domain domain ≡ false)
      × (label_of ≢ [])
      × ((b : Brand) × Member b d.brands
          × IsLookalike d.typo_max_distance full_of
              (map o.lower label_of)
              (confusable_skeleton o.lower label_of)
              b))
  unfolding check_typosquat
  check_typosquat_iff =
      let (f, g) =
        match_brands_iff o d full_of (map o.lower label_of) (confusable_skeleton o.lower label_of)
          d.brands in
      (
        λ h.
            let (_, infra, named, _, s) =
              (guarded (length d.brands == 0) (is_infra_domain domain) (is_empty label_of)
                  (is_empty (confusable_skeleton o.lower label_of)) _).0
                h in
            (infra, (named_iff label_of).0 named, f s),
        λ (infra, named, (b, m, l)).
            let full = (named_iff label_of).1 named in
            (guarded (length d.brands == 0) (is_infra_domain domain) (is_empty label_of)
                (is_empty (confusable_skeleton o.lower label_of)) _).1
              (
                length-Member b d.brands m,
                infra,
                full,
                is_empty-confusable_skeleton o.lower label_of ∙ full,
                g (b, m, l),
              ),
      )
