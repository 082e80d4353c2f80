-- ===== src/Base/Keyset.antt =====
-- Keyset pages of a table: ORDER BY a strict order, and what a cursor leaves.
use datha_platform.Base.{
  ℕ, zero, suc, ◌≤◌, ◌+◌, Bool, true, false, not, ◌||◌, List, [], ◌∷◌, ◌++◌, some, arith,
  if◌then◌else◌, filter, take, last?, length, insert_by, sort_by, All, All-map, ◌≡◌, refl, ap,
  subst, Bool-cases, inl, inr, ◌⊎◌,
}
use datha_platform.Base.Queries.{filter_all, All-insert_by, All-sort_by, All-filter}

-- OFFSET
abbrev pub drop {ℓ} : {A : Type ℓ} → ℕ → List A → List A
drop zero xs = xs
drop (suc n) [] = []
drop (suc n) (x ∷ xs) = drop n xs

pub take-drop {ℓ} : {A : Type ℓ} (n : ℕ) (xs : List A) → take n xs ++ drop n xs ≡ xs
take-drop zero xs = refl
take-drop (suc n) [] = refl
take-drop (suc n) (x ∷ xs) = ap (λ r. x ∷ r) (take-drop n xs)

-- A strict order of rows, and `first a b` for "a comes first".
pub record Strict {ℓ} {A : Type ℓ} (first : A → A → Bool) : Type ℓ where
  pub asym : (x y : A) → first x y ≡ true → first y x ≡ false
  pub trans : (x y z : A) → first x y ≡ true → first y z ≡ true → first x z ≡ true

module _ {ℓ} {A : Type ℓ} (first : A → A → Bool) where
  -- The comparison that ORDER BY inserts with: a row that ties goes after none.
  abbrev pub not_later : A → A → Bool
  not_later x y = not (first y x)

  abbrev pub order_by : List A → List A
  order_by xs = sort_by not_later xs

  abbrev pub Apart : A → A → Type 0
  Apart x y = (first x y || first y x) ≡ true

  -- No two rows tie.
  abbrev pub Untied : List A → Type 0
  Untied [] = Unit
  Untied (x ∷ xs) = All (Apart x) xs × Untied xs

  abbrev pub Ordered : List A → Type 0
  Ordered [] = Unit
  Ordered (x ∷ xs) = All (λ y. first x y ≡ true) xs × Ordered xs

  pub Untied-filter : (p : A → Bool) (xs : List A) → Untied xs → Untied (filter p xs)
  unfolding filter
  Untied-filter p [] h = tt
  Untied-filter p (x ∷ xs) h = elim (Bool-cases (p x)) [
    | inl e ↦ rw e (All-filter (Apart x) p xs h.0, Untied-filter p xs h.1)
    | inr e ↦ rw e (Untied-filter p xs h.1)
  ]

  module _ (s : Strict first) where
    insert-Ordered :
        (x : A) (ys : List A) → All (Apart x) ys → Ordered ys → Ordered (insert_by not_later x ys)
    unfolding insert_by
    insert-Ordered x [] h k = (tt, tt)
    insert-Ordered x (y ∷ ys) h k = elim (Bool-cases (first y x)) [
      | inl e ↦
          rw e (
            All-insert_by (λ z. first y z ≡ true) not_later x ys e k.0,
            insert-Ordered x ys h.1 k.1,
          )
      | inr e ↦
          let below : first x y ≡ true = ground (arith, h.0, e) in
          rw e ((below, All-map (λ z f. s.trans x y z below f) ys k.0), k)
    ]

    Apart-sort : (x : A) (xs : List A) → All (Apart x) xs → All (Apart x) (order_by xs)
    Apart-sort x xs h = All-sort_by (Apart x) not_later xs h

    pub order_by-Ordered : (xs : List A) → Untied xs → Ordered (order_by xs)
    unfolding sort_by
    order_by-Ordered [] h = tt
    order_by-Ordered (x ∷ xs) h =
        insert-Ordered x (order_by xs) (Apart-sort x xs h.0) (order_by-Ordered xs h.1)

    insert_first :
        (x : A) (ys : List A) → All (λ y. first x y ≡ true) ys → insert_by not_later x ys ≡ x ∷ ys
    unfolding insert_by
    insert_first x [] h = refl
    insert_first x (y ∷ ys) h = ground (arith, s.asym x y h.0)

    filter-insert :
        (p : A → Bool) (x : A) (ys : List A)
        → All (Apart x) ys
        → Ordered ys
        → filter p (insert_by not_later x ys)
          ≡ (if p x then insert_by not_later x (filter p ys) else filter p ys)
    unfolding filter insert_by
    filter-insert p x [] h k = refl
    filter-insert p x (y ∷ ys) h k = elim (Bool-cases (first y x)) [
      | inl e ↦ ground (arith, e, filter-insert p x ys h.1 k.1, Bool-cases (p x), Bool-cases (p y))
      | inr e ↦
          let below : first x y ≡ true = ground (arith, h.0, e) in
          let ahead = insert_first x (filter p (y ∷ ys)) (
            All-filter (λ z. first x z ≡ true) p (y ∷ ys)
              (below, All-map (λ z f. s.trans x y z below f) ys k.0)) in
          ground (arith, e, ahead, Bool-cases (p x), Bool-cases (p y))
    ]

    -- A WHERE may come before or after the ORDER BY.
    pub filter-order_by :
        (p : A → Bool) (xs : List A) → Untied xs → order_by (filter p xs) ≡ filter p (order_by xs)
    unfolding filter sort_by
    filter-order_by p [] h = refl
    filter-order_by p (x ∷ xs) h = ground (
      arith,
      filter-order_by p xs h.1,
      Bool-cases (p x),
      filter-insert p x (order_by xs) (Apart-sort x xs h.0) (order_by-Ordered xs h.1),
    )

    irrefl : (x : A) → first x x ≡ false
    irrefl x = elim (Bool-cases (first x x)) [ inl e ↦ s.asym x x e | inr e ↦ e ]

    earlier-last :
        (n : ℕ) (xs : List A) (x y : A)
        → All (λ z. first y z ≡ true) xs
        → last? (take (suc n) xs) ≡ some x
        → first y x ≡ true
    earlier-last n [] x y h e = ground arith
    earlier-last zero (z ∷ zs) x y h e = ground (arith, ap (first y), h.0)
    earlier-last (suc n) (z ∷ []) x y h e = ground (arith, ap (first y), h.0)
    earlier-last (suc n) (z ∷ w ∷ zs) x y h e = earlier-last n (w ∷ zs) x y h.1 e

    -- The rows after the last row of a page are those that the page left.
    pub filter-drop :
        (n : ℕ) (xs : List A) (x : A)
        → Ordered xs
        → last? (take (suc n) xs) ≡ some x
        → filter (first x) xs ≡ drop (suc n) xs
    unfolding filter
    filter-drop n [] x h e = refl
    filter-drop zero (y ∷ ys) x h e =
        let same : y ≡ x = ground arith in
        subst (λ w. filter (first w) (y ∷ ys) ≡ ys) same
          (rw (irrefl y) (filter_all (first y) ys h.0))
    filter-drop (suc n) (y ∷ []) x h e =
        let same : y ≡ x = ground arith in
        subst (λ w. filter (first w) (y ∷ []) ≡ []) same (rw (irrefl y) refl)
    filter-drop (suc n) (y ∷ z ∷ ys) x h e =
        let later = s.asym y x (earlier-last n (z ∷ ys) x y h.0 e) in
        rw later (filter-drop n (z ∷ ys) x h.1 e)

pub length-drop {ℓ} :
    {A : Type ℓ} (n : ℕ) (xs : List A) → length (drop n xs) + n ≤ length xs ⊎ (drop n xs ≡ [])
length-drop zero xs = inl (omega arith)
length-drop (suc n) [] = inr refl
length-drop (suc n) (x ∷ xs) = ground (arith, length-drop n xs)
