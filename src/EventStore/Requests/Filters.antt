-- ===== src/EventStore/Requests/Filters.antt =====
-- No payload filter of a request is left out silently.
use datha_platform.Base.{
  String, Bool, true, false, not, ◌==◌, List, [], ◌∷◌, Option, none, some, filter, any, All, ◌≡◌,
  refl, sym, ◌∙◌, arith, ◌⊎◌, inl, inr, Bool-cases, eq_refl, eq_iff, subst,
}
use datha_platform.Base.Queries.{any-append, any-last}
use datha_platform.Base.Texts.{strip_prefix}
use datha_platform.EventStore.Requests.{
  QueryValue, PayloadFilters, accepted, rejected, usable_text, is_payload_key, assign, take_filter,
  take_entry, parse_from, parse_payload_filters,
}

abbrev pub has_key : String → List (String × String) → Bool
has_key key out = any (λ p. p.0 == key) out

-- An entry of the query that is no payload filter, or one whose field has a condition.
abbrev pub IsApplied : List (String × String) → String × QueryValue → Type 0
IsApplied out entry =
    (strip_prefix "payload." entry.0 ≡ none)
    ⊎ ((key : String) × (strip_prefix "payload." entry.0 ≡ some key)
        × ((key ≡ "__proto__") ⊎ (has_key key out ≡ true)))

any-filter-other :
    (key k : String) (out : List (String × String))
    → (key == k) ≡ false
    → has_key k out ≡ true
    → has_key k (filter (λ p. not (p.0 == key)) out) ≡ true
unfolding any filter
any-filter-other key k [] h e = ground arith
any-filter-other key k (p ∷ out) h e = elim (Bool-cases (p.0 == key)) [
  | inl f ↦
      let apart : (p.0 == k) ≡ false =
        subst (λ w. (w == k) ≡ false) (sym ((eq_iff p.0 key).0 f)) h in
      ground (arith, f, apart, e, any-filter-other key k out h)
  | inr f ↦ ground (arith, f, e, any-filter-other key k out h, Bool-cases (p.0 == k))
]

assign-keeps :
    (key value k : String) (out : List (String × String))
    → has_key k out ≡ true
    → has_key k (assign key value out) ≡ true
unfolding assign
assign-keeps key value k out h = elim (Bool-cases (key == "__proto__")) [
  | inl e ↦ rw e h
  | inr e ↦ elim (Bool-cases (key == k)) [
    | inl f ↦ rw e (any-last (λ p. p.0 == k) (filter (λ p. not (p.0 == key)) out) (key, value) f)
    | inr f ↦ rw e (
        any-append (λ p. p.0 == k) (filter (λ p. not (p.0 == key)) out) ((key, value) ∷ [])
          (any-filter-other key k out f h))
  ]
]

assign-has :
    (key value : String) (out : List (String × String))
    → (key ≡ "__proto__") ⊎ (has_key key (assign key value out) ≡ true)
unfolding assign
assign-has key value out = elim (Bool-cases (key == "__proto__")) [
  | inl e ↦ inl ((eq_iff key "__proto__").0 e)
  | inr e ↦ inr (
      rw e (
        any-last (λ p. p.0 == key) (filter (λ p. not (p.0 == key)) out) (key, value) (eq_refl key)))
]

-- What an accepted pass leaves.
abbrev Extends : List (String × String) → List (String × String) → Type 0
Extends out after = (k : String) → has_key k out ≡ true → has_key k after ≡ true

take_filter-accepted :
    (raw key : String) (o : Option String) (out after : List (String × String))
    → take_filter raw key o out ≡ accepted after
    → ((key ≡ "__proto__") ⊎ (has_key key after ≡ true)) × Extends out after
take_filter-accepted raw key none out after h = cc
take_filter-accepted raw key (some value) out after h = elim (Bool-cases (is_payload_key key)) [
  | inl e ↦
      let same : assign key value out ≡ after = ground (arith, e, h) in
      subst (λ l. ((key ≡ "__proto__") ⊎ (has_key key l ≡ true)) × Extends out l) same
        (assign-has key value out, λ k f. assign-keeps key value k out f)
  | inr e ↦ ground (arith, e, h)
]

take_entry-accepted :
    (entry : String × QueryValue) (o : Option String) (out after : List (String × String))
    → strip_prefix "payload." entry.0 ≡ o
    → take_entry entry.0 entry.1 o out ≡ accepted after
    → IsApplied after entry × Extends out after
take_entry-accepted entry none out after s h =
    let same : out ≡ after = cc in (inl s, λ k f. subst (λ l. has_key k l ≡ true) same f)
take_entry-accepted entry (some key) out after s h =
    let (applied, kept) = take_filter-accepted entry.0 key (usable_text entry.1) out after h in
    (inr (key, s, applied), kept)

IsApplied-Extends :
    (out after : List (String × String)) (entry : String × QueryValue)
    → Extends out after
    → IsApplied out entry
    → IsApplied after entry
IsApplied-Extends out after entry f (inl s) = inl s
IsApplied-Extends out after entry f (inr (key, s, inl e)) = inr (key, s, inl e)
IsApplied-Extends out after entry f (inr (key, s, inr e)) = inr (key, s, inr (f key e))

parse_from-rejected :
    (query : List (String × QueryValue)) (raw : String)
    → parse_from query (rejected raw) ≡ rejected raw
unfolding parse_from
parse_from-rejected [] raw = refl
parse_from-rejected (entry ∷ query) raw = refl

-- The rest of the loop after a pass.
after_pass :
    (entry : String × QueryValue) (query : List (String × QueryValue))
    (out after : List (String × String)) (taken : PayloadFilters)
    → ((next : List (String × String))
        → parse_from query (accepted next) ≡ accepted after
        → All (IsApplied after) query × Extends next after)
    → take_entry entry.0 entry.1 (strip_prefix "payload." entry.0) out ≡ taken
    → parse_from query taken ≡ accepted after
    → All (IsApplied after) (entry ∷ query) × Extends out after
after_pass entry query out after (rejected raw) again e h =
    let no : rejected raw ≡ accepted after = sym (parse_from-rejected query raw) ∙ h in cc
after_pass entry query out after (accepted next) again e h =
    let (applied, kept) =
      take_entry-accepted entry (strip_prefix "payload." entry.0) out next refl e in
    let (rest, later) = again next h in
    ((IsApplied-Extends next after entry later applied, rest), λ k f. later k (kept k f))

parse_from-accepted :
    (query : List (String × QueryValue)) (out after : List (String × String))
    → parse_from query (accepted out) ≡ accepted after
    → All (IsApplied after) query × Extends out after
unfolding parse_from
parse_from-accepted [] out after h =
    let same : out ≡ after = cc in (tt, λ k f. subst (λ l. has_key k l ≡ true) same f)
parse_from-accepted (entry ∷ query) out after h =
    after_pass entry query out after
      (take_entry entry.0 entry.1 (strip_prefix "payload." entry.0) out)
      (λ next k. parse_from-accepted query next after k) refl h

-- When the payload filters of a request are accepted, each entry that names a payload field has a
-- condition on that field, except for the field `__proto__`.
pub parse_payload_filters-IsApplied :
    (query : List (String × QueryValue)) (out : List (String × String))
    → parse_payload_filters query ≡ accepted out
    → All (IsApplied out) query
unfolding parse_payload_filters
parse_payload_filters-IsApplied query out h = (parse_from-accepted query [] out h).0
