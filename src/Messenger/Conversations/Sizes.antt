-- ===== src/Messenger/Conversations/Sizes.antt =====
-- How many people an upsert can bring into a conversation.
use datha_platform.Base.{
  ℕ, ◌≤◌, ◌<◌, String, Bool, true, false, not, ◌||◌, ◌==◌, List, [], ◌∷◌, map, Option, arith, any,
  filter, update, length, ◌≡◌, refl, ap, Bool-cases, inl, inr, eq_iff, eq_refl,
}
use datha_platform.Base.Queries.{length-filter-le}
use datha_platform.Base.Tables.{any-append}
use datha_platform.Messenger.Rows.{ParticipantRow}
use datha_platform.Messenger.Calls.{contains}
use datha_platform.Messenger.Messages.{is_active_member}
use datha_platform.Messenger.Conversations.{unique, has_duplicate, join_rows, is_row_of_owner}
use datha_platform.Messenger.Conversations.Members.{
  contains-filter, touched_row, rejoin, joined, missing_ones,
}

pub contains-unique : (xs : List String) (x : String) → contains (unique xs) x ≡ contains xs x
unfolding unique any
contains-unique [] x = refl
contains-unique (y ∷ ys) x = ground (
  arith,
  contains-filter (λ z. not (z == y)) (unique ys) x,
  contains-unique ys x,
  eq_iff y x,
  eq_iff x y,
)

without_shorter :
    (x : String) (xs : List String)
    → contains xs x ≡ true
    → length (filter (λ y. not (y == x)) xs) < length xs
unfolding filter any
without_shorter x [] h = ground arith
without_shorter x (y ∷ ys) h = elim (Bool-cases (y == x)) [
  | inl e ↦ ground (arith, e, length-filter-le (λ z. not (z == x)) ys)
  | inr e ↦ ground (arith, e, h, without_shorter x ys)
]

-- Distinct texts that all stand in another list are no more than it holds.
pub length-subset :
    (xs ys : List String)
    → has_duplicate xs ≡ false
    → ((x : String) → contains xs x ≡ true → contains ys x ≡ true)
    → length xs ≤ length ys
unfolding has_duplicate any
length-subset [] ys d h = omega arith
length-subset (x ∷ xs) ys d h =
    let here : contains ys x ≡ true = h x (ground (arith, eq_refl x)) in
    let rest = length-subset xs (filter (λ y. not (y == x)) ys) (ground (arith, d)) (λ z k. ground (
      arith,
      d,
      k,
      h z (ground (arith, k)),
      contains-filter (λ y. not (y == x)) ys z,
      eq_iff z x,
      Bool-cases (contains xs x),
      ap (contains xs),
    )) in
    omega (arith, rest, without_shorter x ys here)

updated_active :
    (id : String) (owners : List String) (rows : List ParticipantRow) (x : String)
    → any (is_active_member id x) (update (touched_row id owners) rejoin rows) ≡ true
    → (any (is_active_member id x) rows || contains owners x) ≡ true
unfolding any update
updated_active id owners [] x h = ground arith
updated_active id owners (p ∷ rows) x h = ground (
  arith,
  h,
  updated_active id owners rows x,
  Bool-cases (touched_row id owners p),
  eq_iff p.owner_id x,
  ap (contains owners),
)

inserted_active :
    (now : ℕ) (id : String) (admin : Option String) (p : String → Bool) (owners : List String)
    (x : String)
    → any (is_active_member id x) (map (joined now id admin) (filter p owners)) ≡ true
    → contains owners x ≡ true
unfolding any filter
inserted_active now id admin p [] x h = ground arith
inserted_active now id admin p (o ∷ owners) x h =
    ground (arith, h, inserted_active now id admin p owners x, Bool-cases (p o))

-- Nobody is in a conversation after the upsert but those who were and those whom it names.
pub join_rows-only :
    (now : ℕ) (id : String) (owners : List String) (admin : Option String)
    (rows : List ParticipantRow) (x : String)
    → any (is_active_member id x) (join_rows now id owners admin rows) ≡ true
    → (any (is_active_member id x) rows || contains owners x) ≡ true
unfolding join_rows
join_rows-only now id owners admin rows x h = ground (
  arith,
  h,
  any-append (is_active_member id x) (update (touched_row id owners) rejoin rows)
      (map (joined now id admin) (missing_ones id rows owners)),
  updated_active id owners rows x,
  inserted_active now id admin (λ o. not (any (is_row_of_owner id o) rows)) owners x,
)
