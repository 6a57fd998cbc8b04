-- ===== src/Blocklist/Gathered.antt =====
-- internal/blocklist/aggregate.go: what the feeds of a category, or a bundle, become.
use phantomcore.Base.{
  ◌≡◌, ◌↔◌, ◌⊎◌, inl, inr, refl, sym, ap, ◌∙◌, true, false, List, [], ◌∷◌, ◌++◌, arith, Text,
  is_empty, same_text, same_text_yes, same_text-true, Member, any, any-Member, any_of_Member,
  Bool-cases, subst,
}
use phantomcore.Blocklist.Engine.{normalize_domain, Progress, start, add_domain, add_domains}

-- No text twice.
abbrev pub NoDup : List Text → Type 0
NoDup [] = Unit
NoDup (x ∷ xs) = (Member x xs → ⊥) × NoDup xs

-- Some raw entry is, once normalized, this domain.
abbrev pub IsNamed : Text → List Text → Type 0
IsNamed d raws = (raw : Text) × Member raw raws × (normalize_domain raw ≡ d) × (is_empty d ≡ false)

-- A list holds each domain that the raw entries name, once, and nothing else.
pub record Gathers (raws ds : List Text) : Type 0 where
  pub once : NoDup ds
  pub exactly : (d : Text) → Member d ds ↔ IsNamed d raws

Member-snoc : (d y : Text) (xs : List Text) → Member d (xs ++ y ∷ []) ↔ (Member d xs ⊎ (d ≡ y))
Member-snoc d y [] = (
  λ h. elim h [ inl e ↦ inr e | inr m ↦ absurd m ],
  λ h. elim h [ inl m ↦ absurd m | inr e ↦ inl e ],
)
Member-snoc d y (x ∷ xs) =
    let (f, g) = Member-snoc d y xs in
    (
      λ h. elim h [
        | inl e ↦ inl (inl e)
        | inr m ↦ elim (f m) [ inl k ↦ inl (inr k) | inr e ↦ inr e ]
      ],
      λ h. elim h [
        | inl m ↦ elim m [ inl e ↦ inl e | inr k ↦ inr (g (inl k)) ]
        | inr e ↦ inr (g (inr e))
      ],
    )

snoc-NoDup : (y : Text) (xs : List Text) → NoDup xs → (Member y xs → ⊥) → NoDup (xs ++ y ∷ [])
snoc-NoDup y [] h k = (λ m. m, tt)
snoc-NoDup y (x ∷ xs) h k = (
  λ m. elim ((Member-snoc x y xs).0 m) [ inl n ↦ h.0 n | inr e ↦ k (inl (sym e)) ],
  snoc-NoDup y xs h.1 (λ m. k (inr m)),
)

-- Between two rounds of a loop over entries.
record IsKept (p : Progress) : Type 0 where
  same : (d : Text) → Member d p.seen ↔ Member d p.domains
  once : NoDup p.domains

-- Progress that has the domains of another, and a normalized entry unless it is blank.
abbrev Adds : Progress → Text → Progress → Type 0
Adds p n p' =
    IsKept p'
    × ((d : Text) → Member d p'.domains ↔ (Member d p.domains ⊎ (n ≡ d) × (is_empty d ≡ false)))

Member-seen : (n : Text) (xs : List Text) → any (same_text n) xs ≡ true → Member n xs
Member-seen n xs h =
    let (a, m, q) = any-Member (same_text n) xs h in
    subst (λ x. Member x xs) (sym (same_text-true n a q)) m

unseen-Member : (n : Text) (xs : List Text) → any (same_text n) xs ≡ false → Member n xs → ⊥
unseen-Member n xs h m = let k = any_of_Member (same_text n) n xs m (same_text_yes n n refl) in cc

blank-Adds : (p : Progress) (n : Text) → IsKept p → is_empty n ≡ true → Adds p n p
blank-Adds p n k e = (
  k,
  λ d. (λ m. inl m, λ m. elim m [ inl h ↦ h | inr (q, f) ↦ absurd (ground (arith, q, e, f)) ]),
)

old-Adds : (p : Progress) (n : Text) → IsKept p → Member n p.domains → Adds p n p
old-Adds p n k held = (
  k,
  λ d.
      (λ m. inl m, λ m. elim m [ inl h ↦ h | inr (q, f) ↦ subst (λ x. Member x p.domains) q held ]),
)

new-Adds :
    (p : Progress) (n : Text)
    → IsKept p
    → is_empty n ≡ false
    → (Member n p.domains → ⊥)
    → Adds p n (record p { seen = n ∷ p.seen; domains = p.domains ++ n ∷ [] })
new-Adds p n k e fresh = (
  record {
    same = λ d.
        let (f, g) = Member-snoc d n p.domains in
        (
          λ m. g (elim m [ inl q ↦ inr q | inr h ↦ inl ((k.same d).0 h) ]),
          λ m. elim (f m) [ inl h ↦ inr ((k.same d).1 h) | inr q ↦ inl q ],
        );
    once = snoc-NoDup n p.domains k.once fresh;
  },
  λ d.
      let (f, g) = Member-snoc d n p.domains in
      (
        λ m. elim (f m) [ inl h ↦ inl h | inr q ↦ inr (sym q, ap is_empty q ∙ e) ],
        λ m. g (elim m [ inl h ↦ inl h | inr (q, f') ↦ inr (sym q) ]),
      ),
)

add_domain-Adds :
    (p : Progress) (raw : Text) → IsKept p → Adds p (normalize_domain raw) (add_domain p raw)
unfolding add_domain
add_domain-Adds p raw k =
    let n = normalize_domain raw in
    elim (Bool-cases (is_empty n)) [
      | inl e ↦ rw e (blank-Adds p n k e)
      | inr e ↦ elim (Bool-cases (any (same_text n) p.seen)) [
        | inl old ↦ rw (e, old) (old-Adds p n k ((k.same n).0 (Member-seen n p.seen old)))
        | inr new ↦
            rw (e, new) (new-Adds p n k e (λ m. unseen-Member n p.seen new ((k.same n).1 m)))
      ]
    ]

add_domains-Kept :
    (p : Progress) (raws : List Text)
    → IsKept p
    → IsKept (add_domains p raws)
      × ((d : Text) → Member d (add_domains p raws).domains ↔ (Member d p.domains ⊎ IsNamed d raws))
unfolding add_domains
add_domains-Kept p [] k =
    (k, λ d. (λ m. inl m, λ m. elim m [ inl h ↦ h | inr (raw, h, q, f) ↦ absurd h ]))
add_domains-Kept p (raw ∷ raws) k =
    let (k', one) = add_domain-Adds p raw k in
    let (k2, rest) = add_domains-Kept (add_domain p raw) raws k' in
    (
      k2,
      λ d. (
        λ m. elim ((rest d).0 m) [
          | inl h ↦ elim ((one d).0 h) [ inl h' ↦ inl h' | inr (q, f) ↦ inr (raw, inl refl, q, f) ]
          | inr (r, h, q, f) ↦ inr (r, inr h, q, f)
        ],
        λ m. elim m [
          | inl h ↦ (rest d).1 (inl ((one d).1 (inl h)))
          | inr (r, h, q, f) ↦ elim h [
            | inl e ↦ (rest d).1 (inl ((one d).1 (inr (ap normalize_domain (sym e) ∙ q, f))))
            | inr h' ↦ (rest d).1 (inr (r, h', q, f))
          ]
        ],
      ),
    )

start-IsKept : IsKept start
start-IsKept = record { same = λ d. (λ m. m, λ m. m); once = tt }

pub add_domains-Gathers : (raws : List Text) → Gathers raws (add_domains start raws).domains
add_domains-Gathers raws =
    let (k, all) = add_domains-Kept start raws start-IsKept in
    record {
      once = k.once;
      exactly =
          λ d. (λ m. elim ((all d).0 m) [ inl h ↦ absurd h | inr h ↦ h ], λ h. (all d).1 (inr h));
    }
