-- ===== src/Base/Texts.antt =====
-- The order of texts, and their concatenation.
use Prim.Native.Char.{code}
use text.Mathlib.TextEquality.{Char-path}
use datha_platform.Base.{
  String, Bool, true, false, not, ◌&&◌, ◌||◌, Option, none, some, if◌then◌else◌, ltb, eqb, ◌≡◌,
  refl, arith,
}

-- The order of `sort()` on texts: by character code, a prefix first.
unfoldable pub text_le : String → String → Bool
text_le String.[] t = true
text_le (String.◌∷◌ x s) String.[] = false
text_le (String.◌∷◌ x s) (String.◌∷◌ y t) =
    ltb (code x) (code y) || eqb (code x) (code y) && text_le s t

-- `a.concat(b)` and `join("|")`.
unfoldable pub concat : String → String → String
concat String.[] t = t
concat (String.◌∷◌ x s) t = String.◌∷◌ x (concat s t)

-- `startsWith` and `slice`: what follows the prefix.
unfoldable pub strip_prefix : String → String → Option String
strip_prefix String.[] s = some s
strip_prefix (String.◌∷◌ x p) String.[] = none
strip_prefix (String.◌∷◌ x p) (String.◌∷◌ y s) =
    let rest = strip_prefix p s in if eqb (code x) (code y) then rest else none

pub text_le-total : (s t : String) → text_le s t ≡ false → text_le t s ≡ true
unfolding text_le
text_le-total String.[] t h = ground arith
text_le-total (String.◌∷◌ x s) String.[] h = refl
text_le-total (String.◌∷◌ x s) (String.◌∷◌ y t) h = ground (arith, text_le-total s t)

pub text_le-antisym : (s t : String) → text_le s t ≡ true → text_le t s ≡ true → s ≡ t
unfolding text_le
text_le-antisym String.[] String.[] h k = refl
text_le-antisym String.[] (String.◌∷◌ y t) h k = ground arith
text_le-antisym (String.◌∷◌ x s) String.[] h k = ground arith
text_le-antisym (String.◌∷◌ x s) (String.◌∷◌ y t) h k =
    let same : code x ≡ code y = ground arith in
    let rest : s ≡ t = text_le-antisym s t (ground arith) (ground arith) in
    λ i. String.◌∷◌ (Char-path x y same i) (rest i)

pub text_le_trans : (s t u : String) → text_le s t ≡ true → text_le t u ≡ true → text_le s u ≡ true
unfolding text_le
text_le_trans String.[] t u h k = refl
text_le_trans (String.◌∷◌ x s) String.[] u h k = ground arith
text_le_trans (String.◌∷◌ x s) (String.◌∷◌ y t) String.[] h k = ground arith
text_le_trans (String.◌∷◌ x s) (String.◌∷◌ y t) (String.◌∷◌ z u) h k =
    ground (arith, text_le_trans s t u)

pub text_le_refl : (s : String) → text_le s s ≡ true
unfolding text_le
text_le_refl String.[] = refl
text_le_refl (String.◌∷◌ x s) = ground (arith, text_le_refl s)

-- `s < t`
unfoldable pub text_lt : String → String → Bool
text_lt s t = not (text_le t s)

pub text_lt-asym : (s t : String) → text_lt s t ≡ true → text_lt t s ≡ false
unfolding text_lt
text_lt-asym s t h = ground (arith, text_le-total t s)

pub text_lt_trans : (s t u : String) → text_lt s t ≡ true → text_lt t u ≡ true → text_lt s u ≡ true
unfolding text_lt
text_lt_trans s t u h k = ground (arith, text_le_trans u s t, text_le-total t s, text_le-total u t)

pub text_lt-total : (s t : String) → text_lt s t ≡ false → text_lt t s ≡ false → s ≡ t
unfolding text_lt
text_lt-total s t h k = text_le-antisym s t (ground arith) (ground arith)
