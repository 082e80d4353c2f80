-- ===== src/Base/Tables.antt =====
-- Lookups by a text key in a table, before and after an UPDATE or an INSERT.
use mathlib.Core.Option
use datha_platform.Base.{
  String, Bool, true, false, ◌==◌, List, [], ◌∷◌, ◌++◌, ◌||◌, none, arith, if◌then◌else◌, is_some,
  any, find, update, ◌≡◌, refl, eq_iff, Option-cases, Bool-cases, inl, inr,
}

pub any-eq-is_some {ℓ} : {A : Type ℓ} (p : A → Bool) (xs : List A) → any p xs ≡ is_some (find p xs)
unfolding any find
any-eq-is_some p [] = refl
any-eq-is_some p (x ∷ xs) = ground (arith, any-eq-is_some p xs)

pub find-eq-none {ℓ} :
    {A : Type ℓ} (p : A → Bool) (xs : List A) → any p xs ≡ false → find p xs ≡ none
find-eq-none p xs h = ground (arith, any-eq-is_some p xs, Option-cases (find p xs))

-- A keyed lookup after an update of the rows with one key.
pub find-update_key {ℓ} :
    {A : Type ℓ} (key : A → String) (f : A → A)
    → ((x : A) → key (f x) ≡ key x)
    → (j k : String) (xs : List A)
    → find (λ x. key x == k) (update (λ x. key x == j) f xs)
      ≡ (if j == k then Option.map f (find (λ x. key x == k) xs) else find (λ x. key x == k) xs)
unfolding find update
find-update_key key f keep j k [] = ground arith
find-update_key key f keep j k (x ∷ xs) = ground (
  arith,
  keep x,
  eq_iff (key x) k,
  eq_iff (key x) j,
  eq_iff j k,
  find-update_key key f keep j k xs,
)

-- A lookup that an UPDATE does not concern: no row it rewrites passed the test or passes it now.
pub find-update_miss {ℓ} :
    {A : Type ℓ} (p q : A → Bool) (f : A → A)
    → ((x : A) → p x ≡ true → q x ≡ false)
    → ((x : A) → p x ≡ true → q (f x) ≡ false)
    → (xs : List A) → find q (update p f xs) ≡ find q xs
unfolding find update
find-update_miss p q f before after [] = refl
find-update_miss p q f before after (x ∷ xs) = elim (Bool-cases (p x)) [
  | inl e ↦ ground (arith, e, before x e, after x e, find-update_miss p q f before after xs)
  | inr e ↦ ground (arith, e, find-update_miss p q f before after xs)
]

pub any-append {ℓ} :
    {A : Type ℓ} (p : A → Bool) (xs ys : List A) → any p (xs ++ ys) ≡ (any p xs || any p ys)
unfolding any
any-append p [] ys = refl
any-append p (x ∷ xs) ys = ground (arith, any-append p xs ys)
