-- ===== src/EventStore/Listing/Keys.antt =====
-- The order of events by their keys, and the rows that a cursor can name.
use datha_platform.Base.{
  ℕ, zero, suc, ◌*◌, ◌<◌, String, Bool, true, false, ◌==◌, List, [], ◌∷◌, Option, none, some, arith,
  filter, ◌≡◌, refl, Bool-cases,
}
use datha_platform.Base.Keyset.{Strict}
use datha_platform.Base.Texts.{text_lt-asym, text_lt_trans}
use datha_platform.Messenger.Rows.{read_date}
use datha_platform.EventStore.Rows.{EventRow}
use datha_platform.EventStore.Listing.{Order, asc, desc, key_lt, key_first, key_of, comes_first}

key_lt-asym : (k l : ℕ × String) → key_lt k l ≡ true → key_lt l k ≡ false
unfolding key_lt
key_lt-asym (t, i) (u, j) h = ground (arith, text_lt-asym i j)

key_lt_trans : (k l m : ℕ × String) → key_lt k l ≡ true → key_lt l m ≡ true → key_lt k m ≡ true
unfolding key_lt
key_lt_trans (t, i) (u, j) (v, k) h h' = ground (arith, text_lt_trans i j k)

pub comes_first-Strict : (order : Option Order) → Strict (comes_first order)
comes_first-Strict none = record {
  asym = λ x y h. key_lt-asym (key_of y) (key_of x) h;
  trans = λ x y z h k. key_lt_trans (key_of z) (key_of y) (key_of x) k h;
}
comes_first-Strict (some desc) = record {
  asym = λ x y h. key_lt-asym (key_of y) (key_of x) h;
  trans = λ x y z h k. key_lt_trans (key_of z) (key_of y) (key_of x) k h;
}
comes_first-Strict (some asc) = record {
  asym = λ x y h. key_lt-asym (key_of x) (key_of y) h;
  trans = λ x y z h k. key_lt_trans (key_of x) (key_of y) (key_of z) h k;
}

-- What a row must be for its cursor to name it: an id that the cast to uuid keeps, and a timestamp of
-- whole milliseconds.
pub record IsNameable (uuid : String → Option String) (r : EventRow) : Type 0 where
  pub canonical : uuid r.id ≡ some r.id
  pub nonempty : (r.id == "") ≡ false
  pub whole : read_date r.timestamp * 1000 ≡ r.timestamp

pub key_first_trans :
    (order : Option Order) (k l m : ℕ × String)
    → key_first order k l ≡ true
    → key_first order l m ≡ true
    → key_first order k m ≡ true
key_first_trans none k l m h h' = key_lt_trans m l k h' h
key_first_trans (some desc) k l m h h' = key_lt_trans m l k h' h
key_first_trans (some asc) k l m h h' = key_lt_trans k l m h h'

pub positive : (n : ℕ) → 0 < n → (m : ℕ) × (n ≡ suc m)
positive zero h = ground arith
positive (suc m) h = (m, refl)

pub filter-filter :
    (p q : EventRow → Bool) (xs : List EventRow)
    → ((x : EventRow) → q x ≡ true → p x ≡ true)
    → filter q (filter p xs) ≡ filter q xs
unfolding filter
filter-filter p q [] h = refl
filter-filter p q (x ∷ xs) h =
    ground (arith, h x, Bool-cases (q x), Bool-cases (p x), filter-filter p q xs h)
