-- ===== src/Base/Iso.antt =====
-- ISO 8601 text, which the services exchange and hand to Postgres. `Date` and Postgres are not
-- part of the repository: their conversions are the fields below, with what the code relies on.
use Prim.Native.Char.{code}
use datha_platform.Base.{
  ℕ, zero, suc, ◌*◌, String, Option, none, some, ◌≡◌, refl, Bool, false, ◌||◌, eqb, arith,
}

-- Does the text hold the character with this code?
unfoldable pub has_code : ℕ → String → Bool
has_code c String.[] = false
has_code c (String.◌∷◌ x s) = eqb (code x) c || has_code c s

-- A `Date` is its `getTime()`, in milliseconds; a timestamptz is a count of microseconds.
pub record IsoDate : Type 0 where
  -- `d.toISOString()`
  pub to_iso : ℕ → String
  -- `Date.parse(s)`, with `none` for NaN
  pub parse : String → Option ℕ
  -- the cast `s::timestamptz`, with `none` for the error that Postgres raises
  pub cast : String → Option ℕ
  pub parse-to_iso : (d : ℕ) → parse (to_iso d) ≡ some d
  pub cast-to_iso : (d : ℕ) → cast (to_iso d) ≡ some (d * 1000)
  -- ISO text holds no '|'
  pub to_iso_plain : (d : ℕ) → has_code 124 (to_iso d) ≡ false
  -- `Date.parse("")` is NaN
  pub parse-empty : parse "" ≡ none

-- A concrete calendar for tests: the instant `d` is written as `d + 1` letters.
unfoldable pub letters : ℕ → String
letters zero = "T"
letters (suc d) = String.◌∷◌ "T" (letters d)

unfoldable pub count : String → ℕ
count String.[] = 0
count (String.◌∷◌ x s) = suc (count s)

count-letters : (d : ℕ) → count (letters d) ≡ suc d
unfolding count letters
count-letters zero = refl
count-letters (suc d) = omega (arith, count-letters d)

unfoldable pub instant_of : ℕ → Option ℕ
instant_of zero = none
instant_of (suc n) = some n

pub letters_plain : (d : ℕ) → has_code 124 (letters d) ≡ false
unfolding has_code letters
letters_plain zero = refl
letters_plain (suc d) = letters_plain d

unfoldable pub micros_of : Option ℕ → Option ℕ
micros_of none = none
micros_of (some d) = some (d * 1000)

pub parse-letters : (d : ℕ) → instant_of (count (letters d)) ≡ some d
unfolding instant_of
parse-letters d = rw count-letters

pub cast-letters : (d : ℕ) → micros_of (instant_of (count (letters d))) ≡ some (d * 1000)
unfolding micros_of instant_of
cast-letters d = rw count-letters

unfoldable pub sample_iso : IsoDate
unfolding letters count instant_of micros_of
sample_iso = record {
  to_iso = letters;
  parse = λ s. instant_of (count s);
  cast = λ s. micros_of (instant_of (count s));
  parse-to_iso = parse-letters;
  cast-to_iso = cast-letters;
  parse-empty = refl;
  to_iso_plain = letters_plain;
}
