-- ===== src/EventStore/Cursors.antt =====
-- event-store/src/lib/cursor.ts: the opaque cursor of the events list.
use mathlib.Core.Option
use Prim.Native.Char.{code}
use datha_platform.Base.{
  ℕ, String, false, ◌||◌, ◌==◌, Option, none, some, arith, if◌then◌else◌, is_none, eqb, ◌≡◌, refl,
  Bool-cases, inl, inr, eq_iff,
}
use datha_platform.Base.Iso.{IsoDate, has_code}
use datha_platform.Base.Texts.{concat}

pub record EventCursor : Type 0 where
  pub timestamp : String
  pub id : String

-- `Buffer`'s base64url, with `none` where `decodeCursor` catches an error.
pub record Base64url : Type 0 where
  pub encode : String → String
  pub decode : String → Option String
  pub decode-encode : (s : String) → decode (encode s) ≡ some s

-- `indexOf("|")` and the two slices around it.
unfoldable pub split_first : String → Option (String × String)
split_first String.[] = none
split_first (String.◌∷◌ x s) =
    let rest = split_first s in
    if eqb (code x) 124 then some ("", s) else Option.map (λ p. (String.◌∷◌ x p.0, p.1)) rest

module _ (base64url : Base64url) (iso : IsoDate) where
  unfoldable pub encode_cursor : EventCursor → String
  unfolding concat
  encode_cursor cursor = base64url.encode (concat cursor.timestamp (concat "|" cursor.id))

  -- The checks on the decoded text.
  unfoldable pub check_cursor : Option (String × String) → Option EventCursor
  check_cursor none = none
  check_cursor (some (timestamp, id)) =
      if timestamp == "" || (id == "" || is_none (iso.parse timestamp))
      then none
      else some (record { timestamp = timestamp; id = id })

  unfoldable pub decode_cursor : String → Option EventCursor
  unfolding split_first check_cursor
  decode_cursor raw = elim (base64url.decode raw) [
    | none ↦ none
    | some decoded ↦ check_cursor (split_first decoded)
  ]

  split_first-concat :
      (a b : String) → has_code 124 a ≡ false → split_first (concat a (concat "|" b)) ≡ some (a, b)
  unfolding split_first concat has_code
  split_first-concat String.[] b h = refl
  split_first-concat (String.◌∷◌ x a) b h = ground (arith, split_first-concat a b)

  to_iso-nonempty : (d : ℕ) → (iso.to_iso d == "") ≡ false
  to_iso-nonempty d = elim (Bool-cases (iso.to_iso d == "")) [
    | inl e ↦ ground (arith, eq_iff (iso.to_iso d) "", iso.parse-to_iso d, iso.parse-empty)
    | inr e ↦ e
  ]

  -- A cursor that the service issued, for a row with an id, is read back as it was.
  pub decode_cursor-encode_cursor :
      (d : ℕ) (id : String)
      → (id == "") ≡ false
      → decode_cursor (encode_cursor (record { timestamp = iso.to_iso d; id = id }))
        ≡ some (record { timestamp = iso.to_iso d; id = id })
  unfolding decode_cursor encode_cursor check_cursor
  decode_cursor-encode_cursor d id h = ground (
    arith,
    base64url.decode-encode (concat (iso.to_iso d) (concat "|" id)),
    split_first-concat (iso.to_iso d) id (iso.to_iso_plain d),
    h,
    to_iso-nonempty d,
    iso.parse-to_iso d,
  )
