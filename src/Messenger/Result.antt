-- ===== src/Messenger/Result.antt =====
-- Fallible database work: what a service throws, and the casts of text parameters.
use datha_platform.Base.{ℕ, String, Option, none, some, ◌≡◌, refl, ◌⊎◌, inl, inr}

-- What the code may throw: the foreign key of a deleted conversation, any other database error,
-- and the input errors that the routes answer with 400.
pub data DbError : Type 0 where
  fk_violation : DbError
  other_error : DbError
  bad_input : DbError

-- The outcome of a service.
pub data Result {ℓ} (A : Type ℓ) : Type ℓ where
  err : DbError → Result A
  ok : A → Result A

module _ {ℓ κ} {A : Type ℓ} {B : Type κ} where
  -- `await` of the first, then the rest, unless the first throws.
  infixl 5 ◌>>=◌
  abbrev pub ◌>>=◌ : Result A → (A → Result B) → Result B
  err thrown >>= rest = err thrown
  ok awaited >>= rest = rest awaited

  -- Two statements that both succeed: what the first gave, and that the second took it.
  pub bind_ok :
      {b : B} (first : Result A) (rest : A → Result B)
      → (first >>= rest) ≡ ok b
      → (awaited : A) × (first ≡ ok awaited) × (rest awaited ≡ ok b)
  bind_ok (err thrown) rest h = cc
  bind_ok (ok awaited) rest h = (awaited, refl, h)

-- A text parameter that a statement casts; a text that is no timestamp raises.
abbrev pub cast_result : Option ℕ → Result ℕ
cast_result none = err other_error
cast_result (some t) = ok t

abbrev pub cast_nullable : (String → Option ℕ) → Option String → Result (Option ℕ)
cast_nullable cast none = ok none
cast_nullable cast (some s) = cast_result (cast s) >>= λ t. ok (some t)

pub Result-cases {ℓ} :
    {A : Type ℓ} (m : Result A) → ((a : A) × (m ≡ ok a)) ⊎ ((e : DbError) × (m ≡ err e))
Result-cases (ok a) = inl (a, refl)
Result-cases (err e) = inr (e, refl)
