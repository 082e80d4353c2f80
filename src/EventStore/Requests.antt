-- ===== src/EventStore/Requests.antt =====
-- event-store/src/lib/query-array.ts and the payload filters of routes/events.ts: the query string of a
-- request.
pub mod Filters
use mathlib.Core.Option
use Prim.Native.Char.{code}
use datha_platform.Base.{
  ℕ, zero, suc, String, Bool, true, false, not, ◌&&◌, ◌||◌, ◌==◌, List, [], ◌∷◌, ◌++◌, map, Option,
  none, some, eqb, leb, if◌then◌else◌, filter, any,
}
use datha_platform.Base.Texts.{strip_prefix}
use datha_platform.Messenger.Calls.{contains}
use datha_platform.EventStore.Listing.{is_digit}

-- A value of the query string: given once, or repeated.
pub data QueryValue : Type 0 where
  text : String → QueryValue
  texts : List String → QueryValue

-- `split(",")`
abbrev pub push_front {ℓ} : {A : Type ℓ} → (A → A) → List A → List A
push_front f [] = []
push_front f (x ∷ xs) = f x ∷ xs

unfoldable pub split_commas : String → List String
split_commas String.[] = "" ∷ []
split_commas (String.◌∷◌ x s) =
    let rest = split_commas s in
    if eqb (code x) 44 then "" ∷ rest else push_front (λ w. String.◌∷◌ x w) rest

-- `[...new Set(parts)]`: the first of equal texts is kept.
unfoldable pub unique : List String → List String
unique [] = []
unique (x ∷ xs) = x ∷ filter (λ y. not (y == x)) (unique xs)

abbrev pub none_if_empty : List String → Option (List String)
none_if_empty [] = none
none_if_empty (x ∷ xs) = some (x ∷ xs)

-- `trim` is `String.prototype.trim`.
abbrev pub parts_of : (String → String) → List String → List String
parts_of trim [] = []
parts_of trim (entry ∷ entries) =
    filter (λ s. not (s == "")) (map trim (split_commas entry)) ++ parts_of trim entries

unfoldable pub parse_query_string_array :
    (String → String) → Option QueryValue → Option (List String)
unfolding split_commas unique
parse_query_string_array trim none = none
parse_query_string_array trim (some (text s)) =
    if s == "" then none else Option.map unique (none_if_empty (parts_of trim (s ∷ [])))
parse_query_string_array trim (some (texts entries)) =
    Option.map unique (none_if_empty (parts_of trim entries))

abbrev pub is_key_code : ℕ → Bool
is_key_code c = leb 65 c && leb c 90 || leb 97 c && leb c 122 || is_digit c || eqb c 95

-- /^[A-Za-z0-9_]{1,64}$/, with what is left of the 64.
unfoldable pub all_key_codes : ℕ → String → Bool
all_key_codes n String.[] = true
all_key_codes zero (String.◌∷◌ x s) = false
all_key_codes (suc n) (String.◌∷◌ x s) = is_key_code (code x) && all_key_codes n s

unfoldable pub is_payload_key : String → Bool
unfolding all_key_codes
is_payload_key key = not (key == "") && all_key_codes 64 key

pub data PayloadFilters : Type 0 where
  accepted : List (String × String) → PayloadFilters
  rejected : String → PayloadFilters

-- `out[key] = value` on an object literal, where a text assigned to `__proto__` is dropped.
unfoldable pub assign : String → String → List (String × String) → List (String × String)
assign key value out =
    if key == "__proto__" then out else filter (λ p. not (p.0 == key)) out ++ (key, value) ∷ []

abbrev pub usable_text : QueryValue → Option String
usable_text (text s) = if s == "" then none else some s
usable_text (texts entries) = none

-- One pass of the loop on an entry whose name has the prefix.
abbrev pub take_filter : String → String → Option String → List (String × String) → PayloadFilters
take_filter raw key none out = rejected raw
take_filter raw key (some value) out =
    if is_payload_key key then accepted (assign key value out) else rejected raw

abbrev pub take_entry :
    String → QueryValue → Option String → List (String × String) → PayloadFilters
take_entry raw value none out = accepted out
take_entry raw value (some key) out = take_filter raw key (usable_text value) out

unfoldable pub parse_from : List (String × QueryValue) → PayloadFilters → PayloadFilters
unfolding strip_prefix is_payload_key assign
parse_from [] out = out
parse_from (entry ∷ query) (rejected raw) = rejected raw
parse_from (entry ∷ query) (accepted out) =
    parse_from query (take_entry entry.0 entry.1 (strip_prefix "payload." entry.0) out)

-- `parsePayloadFilters`, on the entries of the query in their order.
unfoldable pub parse_payload_filters : List (String × QueryValue) → PayloadFilters
unfolding parse_from
parse_payload_filters query = parse_from query (accepted [])
