-- ===== src/Policy/Flat.antt =====
-- The outputs of a loop of internal/policy/snapshot.go, one after the other, and what is among them.
use phantomcore.Base.{◌≡◌, refl, ap, ◌⊎◌, inl, inr, List, [], ◌∷◌, ◌++◌, map, Member, subst}

pub Member-append_left : {A : Type 0} (a : A) (xs ys : List A) → Member a xs → Member a (xs ++ ys)
Member-append_left a [] ys m = absurd m
Member-append_left a (x ∷ xs) ys (inl e) = inl e
Member-append_left a (x ∷ xs) ys (inr m) = inr (Member-append_left a xs ys m)

-- The outputs of a list, one after the other.
abbrev pub flat_map {ℓ} : {A B : Type ℓ} → (A → List B) → List A → List B
flat_map f [] = []
flat_map f (x ∷ xs) = f x ++ flat_map f xs

pub Member-or_append :
    {A : Type 0} (a : A) (xs ys : List A) → Member a (xs ++ ys) → Member a xs ⊎ Member a ys
Member-or_append a [] ys m = inr m
Member-or_append a (x ∷ xs) ys (inl e) = inl (inl e)
Member-or_append a (x ∷ xs) ys (inr m) = elim (Member-or_append a xs ys m) [
  | inl k ↦ inl (inr k)
  | inr k ↦ inr k
]

pub Member-flat_map :
    {A B : Type 0} (f : A → List B) (b : B) (xs : List A)
    → Member b (flat_map f xs)
    → (x : A) × Member x xs × Member b (f x)
Member-flat_map f b [] m = absurd m
Member-flat_map f b (x ∷ xs) m = elim (Member-or_append b (f x) (flat_map f xs) m) [
  | inl k ↦ (x, inl refl, k)
  | inr k ↦ let (y, i, j) = Member-flat_map f b xs k in (y, inr i, j)
]

pub Member-map :
    {A B : Type 0} (f : A → B) (b : B) (xs : List A)
    → Member b (map f xs)
    → (x : A) × Member x xs × (b ≡ f x)
Member-map f b [] m = absurd m
Member-map f b (x ∷ xs) (inl e) = (x, inl refl, e)
Member-map f b (x ∷ xs) (inr m) = let (y, i, e) = Member-map f b xs m in (y, inr i, e)

pub map-Member :
    {A B : Type 0} (f : A → B) (a : A) (xs : List A) → Member a xs → Member (f a) (map f xs)
map-Member f a [] m = absurd m
map-Member f a (x ∷ xs) (inl e) = inl (ap f e)
map-Member f a (x ∷ xs) (inr m) = inr (map-Member f a xs m)

pub append_right-Member : {A : Type 0} (a : A) (xs ys : List A) → Member a ys → Member a (xs ++ ys)
append_right-Member a [] ys m = m
append_right-Member a (x ∷ xs) ys m = inr (append_right-Member a xs ys m)

pub flat_map-Member :
    {A B : Type 0} (f : A → List B) (b : B) (x : A) (xs : List A)
    → Member x xs
    → Member b (f x)
    → Member b (flat_map f xs)
flat_map-Member f b x [] m k = absurd m
flat_map-Member f b x (y ∷ xs) (inl e) k =
    Member-append_left b (f y) (flat_map f xs) (subst (λ z. Member b (f z)) e k)
flat_map-Member f b x (y ∷ xs) (inr m) k =
    append_right-Member b (f y) (flat_map f xs) (flat_map-Member f b x xs m k)
