-- ===== src/Messenger/Envelope.antt =====
-- messenger-service/src/services/envelope.ts: the check of a consumed event.
use Prim.Native.Char.{code}
use datha_platform.Base.{
  ℕ, zero, suc, String, Bool, true, false, ◌&&◌, ◌||◌, ◌==◌, List, [], ◌∷◌, Option, none, some, eqb,
  leb, if◌then◌else◌, is_none,
}
use datha_platform.Base.Iso.{IsoDate}
use datha_platform.Base.Json.{Json, null, string, array, object, Members, done, get}

pub record PlatformEvent : Type 0 where
  pub id : String
  pub type : String
  pub service : String
  pub entity_id : Option String
  pub owner_id : Option String
  pub correlation_id : Option String
  pub timestamp : String
  pub payload : Members

-- The errors thrown, in the order of the checks; `not_json` is that of `JSON.parse`.
pub data EnvelopeError : Type 0 where
  not_json not_object bad_id no_type no_service bad_nullable bad_timestamp bad_payload :
      EnvelopeError

pub data Checked {ℓ} (A : Type ℓ) : Type ℓ where
  valid : A → Checked A
  invalid : EnvelopeError → Checked A

infixl 5 ◌>>=◌
abbrev pub ◌>>=◌ {ℓ κ} : {A : Type ℓ} {B : Type κ} → Checked A → (A → Checked B) → Checked B
valid a >>= f = f a
invalid e >>= f = invalid e

-- The character classes of UUID_RE, in order; the flag `i` admits both cases.
abbrev is_hex : ℕ → Bool
is_hex c = (leb 48 c && leb c 57) || (leb 65 c && leb c 70) || (leb 97 c && leb c 102)

abbrev is_dash : ℕ → Bool
is_dash c = eqb c 45

abbrev is_version : ℕ → Bool
is_version c = leb 49 c && leb c 53

abbrev is_variant : ℕ → Bool
is_variant c = leb 56 c && leb c 57 || (eqb c 97 || eqb c 98 || eqb c 65 || eqb c 66)

abbrev hexes : ℕ → List (ℕ → Bool) → List (ℕ → Bool)
hexes zero rest = rest
hexes (suc n) rest = is_hex ∷ hexes n rest

abbrev uuid_classes : List (ℕ → Bool)
uuid_classes = hexes 8 (
    is_dash
    ∷ hexes 4
        (is_dash ∷ is_version ∷ hexes 3 (is_dash ∷ is_variant ∷ hexes 3 (is_dash ∷ hexes 12 []))))

matches : List (ℕ → Bool) → String → Bool
matches [] String.[] = true
matches [] (String.◌∷◌ x s) = false
matches (p ∷ ps) String.[] = false
matches (p ∷ ps) (String.◌∷◌ x s) = p (code x) && matches ps s

unfoldable pub is_uuid : String → Bool
unfolding matches
is_uuid s = matches uuid_classes s

-- `typeof v !== "string" || !v` is `none`.
abbrev pub nonempty_string : Option Json → Option String
nonempty_string (some (string s)) = if s == "" then none else some s
nonempty_string _ = none

abbrev pub required : Option String → EnvelopeError → Checked String
required none e = invalid e
required (some s) e = valid s

unfoldable pub parse_nullable_string : Option Json → Checked (Option String)
parse_nullable_string none = valid none
parse_nullable_string (some null) = valid none
parse_nullable_string (some (string s)) = valid (some s)
parse_nullable_string _ = invalid bad_nullable

abbrev pub uuid_or_null : Option Json → Option String
uuid_or_null (some (string s)) = if is_uuid s then some s else none
uuid_or_null _ = none

abbrev pub iso_or_null : IsoDate → Option Json → Option String
iso_or_null iso (some (string s)) = if is_none (iso.parse s) then none else some s
iso_or_null iso _ = none

abbrev pub members_or_null : Option Json → Option Members
members_or_null (some (object m)) = some m
members_or_null _ = none

-- The members that `e` shows: an array passes the first check and has none of the fields.
abbrev pub fields_of : Json → Checked Members
fields_of (object m) = valid m
fields_of (array xs) = valid done
fields_of _ = invalid not_object

-- `parseEnvelope`, on what `JSON.parse` makes of the bytes, with `none` where that throws.
unfoldable pub parse_envelope : IsoDate → Option Json → Checked PlatformEvent
unfolding parse_nullable_string
parse_envelope iso none = invalid not_json
parse_envelope iso (some raw) = do
  e ← fields_of raw
  id ← required (uuid_or_null (get "id" e)) bad_id
  type ← required (nonempty_string (get "type" e)) no_type
  service ← required (nonempty_string (get "service" e)) no_service
  entity_id ← parse_nullable_string (get "entity_id" e)
  owner_id ← parse_nullable_string (get "owner_id" e)
  correlation_id ← parse_nullable_string (get "correlation_id" e)
  timestamp ← required (iso_or_null iso (get "timestamp" e)) bad_timestamp
  elim (members_or_null (get "payload" e)) [
    | none ↦ invalid bad_payload
    | some payload ↦ valid (record {
      id = id;
      type = type;
      service = service;
      entity_id = entity_id;
      owner_id = owner_id;
      correlation_id = correlation_id;
      timestamp = timestamp;
      payload = payload;
    })
  ]
