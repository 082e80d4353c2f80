-- ===== src/Base/Json.antt =====
-- Values of `JSON.parse`, as far as the services look at them: `typeof`, the text of a string, the
-- items of an array and the members of an object.
use datha_platform.Base.{
  ℕ, ltb, String, Bool, ◌||◌, ◌==◌, Option, none, some, List, [], ◌∷◌, if◌then◌else◌,
}

-- A number: its whole part and whether a fraction follows, or that it is negative or infinite.
pub data Number : Type 0 where
  plain : ℕ → Bool → Number
  negative : Number
  infinite : Number

mutual
  pub data Json : Type 0 where
    null : Json
    boolean : Bool → Json
    number : Number → Json
    string : String → Json
    array : Items → Json
    object : Members → Json

  pub data Items : Type 0 where
    nil : Items
    cons : Json → Items → Items

  pub data Members : Type 0 where
    done : Members
    member : String → Json → Members → Members

-- `o.key`, with `none` for undefined. A later duplicate key wins, as in `JSON.parse`.
unfoldable pub get : String → Members → Option Json
get k done = none
get k (member j v rest) = elim (get k rest) [
  | some w ↦ some w
  | none ↦ if j == k then some v else none
]

-- `typeof value === "string" ? value : null`
abbrev pub string_or_null : Option Json → Option String
string_or_null (some (string s)) = some s
string_or_null _ = none

-- The strings of an array, in order.
abbrev pub strings_of : Items → List String
strings_of nil = []
strings_of (cons (string s) rest) = s ∷ strings_of rest
strings_of (cons _ rest) = strings_of rest

-- `typeof n === "number" && Number.isFinite(n) && n > 0 ? Math.floor(n) : 0`
abbrev pub whole_part : Number → ℕ
whole_part (plain n fraction) = if ltb 0 n || fraction then n else 0
whole_part negative = 0
whole_part infinite = 0
