-- ===== src/Base/Queries.antt =====
-- WHERE, ORDER BY and LIMIT under a map of the rows, and what they keep of every row.
use mathlib.Core.Option
use datha_platform.Base.{
  ◌++◌, if◌then◌else◌, leb, ◌≤◌, ◌<◌, ℕ, zero, suc, Bool, true, false, List, [], ◌∷◌, map, ◌≡◌,
  refl, ap, arith, filter, take, sort_by, insert_by, length, update, any, last?, some, All,
  Bool-cases, inl, inr, ◌∙◌,
}

module _ {ℓ κ} {A : Type ℓ} (P : A → Type κ) where
  pub All-filter : (p : A → Bool) (xs : List A) → All P xs → All P (filter p xs)
  unfolding filter
  All-filter p [] h = tt
  All-filter p (x ∷ xs) h = elim (Bool-cases (p x)) [
    | inl e ↦ rw e (h.0, All-filter p xs h.1)
    | inr e ↦ rw e (All-filter p xs h.1)
  ]

  pub All-insert_by :
      (le : A → A → Bool) (x : A) (xs : List A) → P x → All P xs → All P (insert_by le x xs)
  unfolding insert_by
  All-insert_by le x [] px h = (px, tt)
  All-insert_by le x (y ∷ ys) px h = elim (Bool-cases (le x y)) [
    | inl e ↦ rw e (px, h)
    | inr e ↦ rw e (h.0, All-insert_by le x ys px h.1)
  ]

  pub All-sort_by : (le : A → A → Bool) (xs : List A) → All P xs → All P (sort_by le xs)
  unfolding sort_by
  All-sort_by le [] h = tt
  All-sort_by le (x ∷ xs) h = All-insert_by le x (sort_by le xs) h.0 (All-sort_by le xs h.1)

  pub All-take : (n : ℕ) (xs : List A) → All P xs → All P (take n xs)
  All-take zero xs h = tt
  All-take (suc n) [] h = tt
  All-take (suc n) (x ∷ xs) h = (h.0, All-take n xs h.1)

module _ {ℓ κ} {A : Type ℓ} {B : Type κ} where
  -- Two functions that agree on every row of a table.
  pub map_congr : (f g : A → B) (xs : List A) → All (λ x. f x ≡ g x) xs → map f xs ≡ map g xs
  map_congr f g [] h = refl
  map_congr f g (x ∷ xs) h = λ i. h.0 i ∷ map_congr f g xs h.1 i

  pub take-map : (f : A → B) (n : ℕ) (xs : List A) → take n (map f xs) ≡ map f (take n xs)
  take-map f zero xs = refl
  take-map f (suc n) [] = refl
  take-map f (suc n) (x ∷ xs) = ap (λ r. f x ∷ r) (take-map f n xs)

  pub filter-map :
      (f : A → B) (p : B → Bool) (q : A → Bool)
      → ((x : A) → p (f x) ≡ q x)
      → (xs : List A) → filter p (map f xs) ≡ map f (filter q xs)
  unfolding filter
  filter-map f p q same [] = refl
  filter-map f p q same (x ∷ xs) = ground (arith, same x, filter-map f p q same xs)

  insert_by-map :
      (f : A → B) (lb : B → B → Bool) (la : A → A → Bool)
      → ((x y : A) → lb (f x) (f y) ≡ la x y)
      → (x : A) (xs : List A) → insert_by lb (f x) (map f xs) ≡ map f (insert_by la x xs)
  unfolding insert_by
  insert_by-map f lb la same x [] = refl
  insert_by-map f lb la same x (y ∷ ys) = ground (arith, same x y, insert_by-map f lb la same x ys)

  pub sort_by-map :
      (f : A → B) (lb : B → B → Bool) (la : A → A → Bool)
      → ((x y : A) → lb (f x) (f y) ≡ la x y)
      → (xs : List A) → sort_by lb (map f xs) ≡ map f (sort_by la xs)
  unfolding sort_by
  sort_by-map f lb la same [] = refl
  sort_by-map f lb la same (x ∷ xs) =
      ap (insert_by lb (f x)) (sort_by-map f lb la same xs)
      ∙ insert_by-map f lb la same x (sort_by la xs)

pub map-map {ℓ κ μ} :
    {A : Type ℓ} {B : Type κ} {C : Type μ} (g : B → C) (f : A → B) (xs : List A)
    → map g (map f xs) ≡ map (λ x. g (f x)) xs
map-map g f [] = refl
map-map g f (x ∷ xs) = ap (λ r. g (f x) ∷ r) (map-map g f xs)

pub length-map {ℓ κ} :
    {A : Type ℓ} {B : Type κ} (f : A → B) (xs : List A) → length (map f xs) ≡ length xs
length-map f [] = refl
length-map f (x ∷ xs) = ap suc (length-map f xs)

module _ {ℓ} {A : Type ℓ} where
  -- Every row that a WHERE lets through passes its test.
  pub filter-All : (p : A → Bool) (xs : List A) → All (λ x. p x ≡ true) (filter p xs)
  unfolding filter
  filter-All p [] = tt
  filter-All p (x ∷ xs) = elim (Bool-cases (p x)) [
    | inl e ↦ rw e (e, filter-All p xs)
    | inr e ↦ rw e (filter-All p xs)
  ]

  pub All-of-map {κ μ} :
      {B : Type κ} (P : B → Type μ) (f : A → B) (xs : List A)
      → All (λ x. P (f x)) xs
      → All P (map f xs)
  All-of-map P f [] h = tt
  All-of-map P f (x ∷ xs) h = (h.0, All-of-map P f xs h.1)

  -- An UPDATE that changes nothing the second time, and whose WHERE sees the same rows after it.
  pub update-update :
      (p : A → Bool) (f : A → A)
      → ((x : A) → p (f x) ≡ p x)
      → ((x : A) → f (f x) ≡ f x)
      → (xs : List A) → update p f (update p f xs) ≡ update p f xs
  unfolding update
  update-update p f keep twice [] = refl
  update-update p f keep twice (x ∷ xs) =
      ground (arith, keep x, twice x, Bool-cases (p x), update-update p f keep twice xs)

  -- No row passes a test after an UPDATE of the rows that could.
  pub any-update :
      (p q : A → Bool) (f : A → A)
      → ((x : A) → p x ≡ true → q (f x) ≡ false)
      → ((x : A) → p x ≡ false → q x ≡ false)
      → (xs : List A) → any q (update p f xs) ≡ false
  unfolding any update
  any-update p q f hit miss [] = refl
  any-update p q f hit miss (x ∷ xs) = elim (Bool-cases (p x)) [
    | inl e ↦ ground (arith, e, hit x e, any-update p q f hit miss xs)
    | inr e ↦ ground (arith, e, miss x e, any-update p q f hit miss xs)
  ]

pub last?-map {ℓ κ} :
    {A : Type ℓ} {B : Type κ} (f : A → B) (xs : List A) → last? (map f xs) ≡ Option.map f (last? xs)
last?-map f [] = refl
last?-map f (x ∷ []) = refl
last?-map f (x ∷ y ∷ xs) = last?-map f (y ∷ xs)

pub All-last? {ℓ κ} :
    {A : Type ℓ} (P : A → Type κ) (xs : List A) (x : A) → All P xs → last? xs ≡ some x → P x
All-last? P [] x h e = ground arith
All-last? P (y ∷ []) x h e = let same : y ≡ x = ground arith in rw same at h.0
All-last? P (y ∷ z ∷ xs) x h e = All-last? P (z ∷ xs) x h.1 e

module _ {ℓ} {A : Type ℓ} where
  pub length-take :
      (n : ℕ) (xs : List A) → length (take n xs) ≡ (if leb (length xs) n then length xs else n)
  length-take zero [] = ground arith
  length-take zero (x ∷ xs) = ground arith
  length-take (suc n) [] = ground arith
  length-take (suc n) (x ∷ xs) = ground (arith, length-take n xs)

  pub take_all : (n : ℕ) (xs : List A) → length xs ≤ n → take n xs ≡ xs
  take_all zero [] h = refl
  take_all zero (x ∷ xs) h = ground arith
  take_all (suc n) [] h = refl
  take_all (suc n) (x ∷ xs) h = ap (λ r. x ∷ r) (take_all n xs (ground arith))

  pub take-take : (n : ℕ) (xs : List A) → take n (take (suc n) xs) ≡ take n xs
  take-take zero xs = refl
  take-take (suc n) [] = refl
  take-take (suc n) (x ∷ xs) = ap (λ r. x ∷ r) (take-take n xs)

  pub last?-take :
      (n : ℕ) (xs : List A) → 0 < length xs → (x : A) × (last? (take (suc n) xs) ≡ some x)
  last?-take n [] h = ground arith
  last?-take zero (x ∷ xs) h = (x, refl)
  last?-take (suc n) (x ∷ []) h = (x, refl)
  last?-take (suc n) (x ∷ y ∷ ys) h = last?-take n (y ∷ ys) (ground arith)

  pub length-filter-le : (p : A → Bool) (xs : List A) → length (filter p xs) ≤ length xs
  unfolding filter
  length-filter-le p [] = omega arith
  length-filter-le p (x ∷ xs) = ground (arith, length-filter-le p xs, Bool-cases (p x))

  length-insert_by :
      (le : A → A → Bool) (x : A) (xs : List A) → length (insert_by le x xs) ≡ suc (length xs)
  unfolding insert_by
  length-insert_by le x [] = refl
  length-insert_by le x (y ∷ ys) = ground (arith, length-insert_by le x ys)

  pub length-sort_by : (le : A → A → Bool) (xs : List A) → length (sort_by le xs) ≡ length xs
  unfolding sort_by
  length-sort_by le [] = refl
  length-sort_by le (x ∷ xs) = length-insert_by le x (sort_by le xs) ∙ ap suc (length-sort_by le xs)

  -- A WHERE that lets every row through.
  pub filter_all : (p : A → Bool) (xs : List A) → All (λ y. p y ≡ true) xs → filter p xs ≡ xs
  unfolding filter
  filter_all p [] h = refl
  filter_all p (x ∷ xs) h = ground (arith, h.0, filter_all p xs h.1)

  pub All_of : {P : A → Type 0} → ((x : A) → P x) → (xs : List A) → All P xs
  All_of f [] = tt
  All_of f (x ∷ xs) = (f x, All_of f xs)

pub any-append {ℓ} :
    {A : Type ℓ} (p : A → Bool) (xs ys : List A) → any p xs ≡ true → any p (xs ++ ys) ≡ true
unfolding any
any-append p [] ys h = ground arith
any-append p (x ∷ xs) ys h = ground (arith, any-append p xs ys, Bool-cases (p x))

pub any-last {ℓ} :
    {A : Type ℓ} (p : A → Bool) (xs : List A) (y : A) → p y ≡ true → any p (xs ++ y ∷ []) ≡ true
unfolding any
any-last p [] y h = ground arith
any-last p (x ∷ xs) y h = ground (arith, any-last p xs y h)

pub filter-append {ℓ} :
    {A : Type ℓ} (p : A → Bool) (xs ys : List A) → filter p (xs ++ ys) ≡ filter p xs ++ filter p ys
unfolding filter
filter-append p [] ys = refl
filter-append p (x ∷ xs) ys = ground (arith, filter-append p xs ys, Bool-cases (p x))

pub filter_none {ℓ} :
    {A : Type ℓ} (p : A → Bool) (xs : List A) → All (λ x. p x ≡ false) xs → filter p xs ≡ []
unfolding filter
filter_none p [] h = refl
filter_none p (x ∷ xs) h = ground (arith, h.0, filter_none p xs h.1)

pub filter_idem {ℓ} :
    {A : Type ℓ} (p : A → Bool) (xs : List A) → filter p (filter p xs) ≡ filter p xs
filter_idem p xs = filter_all p (filter p xs) (filter-All p xs)
