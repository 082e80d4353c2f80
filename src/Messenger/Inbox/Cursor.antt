-- ===== src/Messenger/Inbox/Cursor.antt =====
-- The cursor of the conversation list: `listConversations` writes it, `parseCursor` reads it.
use mathlib.Core.Option
use datha_platform.Base.{
  ℕ, String, Bool, true, false, ◌==◌, Option, none, some, arith, if◌then◌else◌, eqb, ◌≡◌, refl, ap,
  sym, subst, ◌∙◌, Bool-cases, inl, inr, eq_iff, List, map, length, last?, ◌<◌, ◌/◌, ◌*◌, ◌⊎◌, not,
  any, ltb, is_none, ◌&&◌, ◌||◌, take, sort_by, filter, All, All-map, Option-cases,
}
use datha_platform.Base.Iso.{IsoDate, has_code}
use datha_platform.Base.Queries.{
  All-sort_by, All-take, All-filter, filter-All, last?-map, All-last?, All-of-map, length-map,
}
use datha_platform.Messenger.Result.{ok, bind_ok}
use datha_platform.Messenger.Rows.{ConversationRow, Db, read_conversation, read_date}
use datha_platform.Messenger.Wire.{Conversation}
use datha_platform.Base.Texts.{concat, text_le}
use datha_platform.Messenger.Inbox.{
  is_active_member, split_last, parse_cursor, issue_cursor, cast_cursor, is_after_cursor,
  most_recent_first, select_conversations, ListConversationsResult, hydrate_conversations,
  to_conversation, participants_in, last_message_in, last_call_in, list_conversations,
}

-- A text without the separator has no last '|'.
split_last-plain : (s : String) → has_code 124 s ≡ false → split_last s ≡ none
unfolding split_last has_code
split_last-plain String.[] h = refl
split_last-plain (String.◌∷◌ x s) h = ground (arith, split_last-plain s)

-- Splitting a joined pair whose second half holds no separator gives the pair.
split_last-concat :
    (a b : String) → has_code 124 b ≡ false → split_last (concat a (concat "|" b)) ≡ some (a, b)
unfolding split_last concat
split_last-concat String.[] b h = ground (arith, split_last-plain b h)
split_last-concat (String.◌∷◌ x a) b h = ground (arith, split_last-concat a b h)

-- The id of a row: a uuid, in the canonical text that the driver returns and that `uuid` keeps.
pub record IsCanonical (uuid : String → Option String) (id : String) : Type 0 where
  pub canonical : uuid id ≡ some id
  pub plain : has_code 124 id ≡ false
  pub nonempty : (id == "") ≡ false

to_iso-nonempty : (iso : IsoDate) (d : ℕ) → (iso.to_iso d == "") ≡ false
to_iso-nonempty iso d = elim (Bool-cases (iso.to_iso d == "")) [
  | inl e ↦ ground (arith, eq_iff (iso.to_iso d) "", iso.parse-to_iso d, iso.parse-empty)
  | inr e ↦ e
]

-- The cursor of a row is read back as the row's activity and id.
pub parse_cursor-issue_cursor :
    (iso : IsoDate) (uuid : String → Option String) (row : ConversationRow)
    → IsCanonical uuid row.id
    → parse_cursor iso (some (issue_cursor iso row))
      ≡ some (iso.to_iso row.last_activity_at, row.id)
unfolding parse_cursor issue_cursor
parse_cursor-issue_cursor iso uuid row h = ground (
  arith,
  split_last-concat (iso.to_iso row.last_activity_at) row.id h.plain,
  h.nonempty,
  to_iso-nonempty iso row.last_activity_at,
  iso.parse-to_iso row.last_activity_at,
)

-- A listed conversation that comes strictly after the one with this id at the instant `e`, in
-- milliseconds: its activity, in microseconds, is earlier, or the same and its id smaller.
abbrev pub IsPast : IsoDate → ℕ → String → Conversation → Type 0
IsPast iso e id w =
    (t : ℕ) × (w.last_activity_at ≡ iso.to_iso (t / 1000))
    × ((t < e * 1000) ⊎ ((t ≡ e * 1000) × (text_le w.id id ≡ true) × ((w.id == id) ≡ false)))

-- The rows that a page after that conversation is made of, among the owner's.
abbrev pub rows_past : String → ℕ → String → ℕ → Db → List ConversationRow
rows_past owner e id limit db = take limit (
    sort_by most_recent_first (
      filter
        (λ c.
          any (is_active_member c.id owner) db.participants
          && is_none c.deleted_at
          && (ltb c.last_activity_at (e * 1000)
              || eqb c.last_activity_at (e * 1000) && (text_le c.id id && not (c.id == id))))
        db.conversations))

module _ (collate : String → String → Bool) (uuid : String → Option String) (lifetime now : ℕ)
    (iso : IsoDate) (owner : String) (limit : ℕ) (db : Db) where
  record Cut (cursor : Option String) (page : ListConversationsResult) : Type 0 where
    cut : Option (ℕ × String)
    casts : cast_cursor iso uuid (parse_cursor iso cursor) ≡ ok cut
    shown :
        page.conversations
        ≡ hydrate_conversations collate uuid lifetime now iso db
            (map read_conversation (select_conversations owner cut limit db))
            owner
    issued : page.next_cursor ≡ (
        if eqb (length (map read_conversation (select_conversations owner cut limit db))) limit
        then Option.map
            (issue_cursor iso)
            (last? (map read_conversation (select_conversations owner cut limit db)))
        else none)

  list_conversations-Cut :
      (cursor : Option String) (page : ListConversationsResult)
      → list_conversations collate uuid lifetime now iso owner limit cursor db ≡ ok page
      → Cut cursor page
  unfolding list_conversations
  list_conversations-Cut cursor page h =
      let (cut, casts, same) = bind_ok (cast_cursor iso uuid (parse_cursor iso cursor)) _ h in
      record { cut = cut; casts = casts; shown = cc same; issued = cc same }

  abbrev rows_of : Option (ℕ × String) → List ConversationRow
  rows_of cut = map read_conversation (select_conversations owner cut limit db)

  abbrev shown_as : ConversationRow → Conversation
  shown_as row =
      to_conversation iso row (participants_in db row.id) (last_message_in db row.id)
        (last_call_in collate lifetime now db row.id) owner

  selected-All :
      (cut : Option (ℕ × String)) (P : ConversationRow → Type 0)
      → All P db.conversations
      → All P (select_conversations owner cut limit db)
  unfolding select_conversations
  selected-All cut P h =
      All-take P limit _ (All-sort_by P most_recent_first _ (All-filter P _ db.conversations h))

  selected_after :
      (cut : Option (ℕ × String))
      → All (λ c. is_after_cursor cut c ≡ true) (select_conversations owner cut limit db)
  unfolding select_conversations
  selected_after cut = All-take _ limit _ (
      All-sort_by _ most_recent_first _
        (All-map (λ c e. ground arith) (filter _ db.conversations) (filter-All _ db.conversations)))

  -- What the cursor of a full page resolves to: the shown activity and the id of its last row.
  page-issued :
      (cursor : Option String) (page : ListConversationsResult) (c : Cut cursor page)
      (r : ConversationRow)
      → IsCanonical uuid r.id
      → length page.conversations ≡ limit
      → last? (rows_of c.cut) ≡ some r
      → cast_cursor iso uuid (parse_cursor iso page.next_cursor)
        ≡ ok (some (r.last_activity_at * 1000, r.id))
  unfolding hydrate_conversations cast_cursor
  page-issued cursor page c r canonical full e =
      let count : length page.conversations ≡ length (rows_of c.cut) =
        rw c.shown (length-map shown_as (rows_of c.cut)) in
      let issued : page.next_cursor ≡ some (issue_cursor iso r) =
        ground (arith, c.issued, e, count, full) in
      ground (
        arith,
        issued,
        parse_cursor-issue_cursor iso uuid r canonical,
        iso.cast-to_iso r.last_activity_at,
        canonical.canonical,
      )

  next-IsPast :
      (e : ℕ) (id : String) (c : ConversationRow)
      → is_after_cursor (some (e * 1000, id)) c ≡ true
      → IsPast iso e id (shown_as (read_conversation c))
  unfolding to_conversation read_conversation read_date
  next-IsPast e id c h = elim (Bool-cases (ltb c.last_activity_at (e * 1000))) [
    | inl k ↦ (c.last_activity_at, refl, inl (ground (arith, k)))
    | inr k ↦ (
      c.last_activity_at,
      refl,
      inr (ground (arith, k, h), ground (arith, k, h), ground (arith, k, h)),
    )
  ]

  page-IsPast :
      (e : ℕ) (id : String)
      → All (IsPast iso e id) (
          hydrate_conversations collate uuid lifetime now iso db
            (map read_conversation (select_conversations owner (some (e * 1000, id)) limit db))
            owner)
  unfolding hydrate_conversations
  page-IsPast e id = All-of-map (IsPast iso e id) shown_as _ (
      All-of-map (λ x. IsPast iso e id (shown_as x)) read_conversation _
        (All-map (next-IsPast e id) _ (selected_after (some (e * 1000, id)))))

  -- What a cursor that casts to this pair leads to.
  list_conversations-IsPast :
      (cursor : Option String) (e : ℕ) (id : String)
      → cast_cursor iso uuid (parse_cursor iso cursor) ≡ ok (some (e * 1000, id))
      → (next : ListConversationsResult) × (list_conversations collate uuid lifetime now iso owner
            limit cursor db
          ≡ ok next)
        × (next.conversations
            ≡ hydrate_conversations collate uuid lifetime now iso db
                (map read_conversation (rows_past owner e id limit db))
                owner)
        × All (IsPast iso e id) next.conversations
  unfolding list_conversations select_conversations
  list_conversations-IsPast cursor e id casts = (
    record {
      conversations =
          hydrate_conversations collate uuid lifetime now iso db
            (map read_conversation (select_conversations owner (some (e * 1000, id)) limit db))
            owner;
      next_cursor =
          if eqb
            (length
              (map read_conversation (select_conversations owner (some (e * 1000, id)) limit db)))
            limit
          then Option.map (issue_cursor iso) (
              last?
                (map read_conversation (select_conversations owner (some (e * 1000, id)) limit db)))
          else none;
    },
    rw casts refl,
    refl,
    page-IsPast e id,
  )

  -- Where the conversations have the ids that the database writes, the cursor of a full page is
  -- accepted, and leads to the first `limit` of the owner's conversations that come strictly after
  -- the page's last one, by the activity that it shows, in whole milliseconds, and then by the id.
  pub list_conversations_next :
      (cursor : Option String) (page : ListConversationsResult) (v : Conversation)
      → All (λ c. IsCanonical uuid c.id) db.conversations
      → list_conversations collate uuid lifetime now iso owner limit cursor db ≡ ok page
      → length page.conversations ≡ limit
      → last? page.conversations ≡ some v
      → (e : ℕ) × (v.last_activity_at ≡ iso.to_iso e)
        × (next : ListConversationsResult) × (list_conversations collate uuid lifetime now iso owner
              limit page.next_cursor db
            ≡ ok next)
        × (next.conversations
            ≡ hydrate_conversations collate uuid lifetime now iso db
                (map read_conversation (rows_past owner e v.id limit db))
                owner)
        × All (IsPast iso e v.id) next.conversations
  unfolding hydrate_conversations to_conversation read_conversation
  list_conversations_next cursor page v canonical h full e =
      let c = list_conversations-Cut cursor page h in
      let shown : Option.map shown_as (last? (rows_of c.cut)) ≡ some v =
        sym (last?-map shown_as (rows_of c.cut)) ∙ ap last? (sym c.shown) ∙ e in
      elim (Option-cases (last? (rows_of c.cut))) [
        | inl f ↦ ground (arith, f, shown)
        | inr (r, f) ↦
            let fine : IsCanonical uuid r.id =
              All-last? (λ r. IsCanonical uuid r.id) (rows_of c.cut) r
                (All-of-map (λ r. IsCanonical uuid r.id) read_conversation _
                  (selected-All c.cut _ canonical))
                f in
            let same : r.id ≡ v.id = ground (arith, f, shown) in
            let (next, accepted, exact, past) =
              list_conversations-IsPast page.next_cursor r.last_activity_at v.id (
                subst
                  (λ i.
                    cast_cursor iso uuid (parse_cursor iso page.next_cursor)
                    ≡ ok (some (r.last_activity_at * 1000, i)))
                  same (page-issued cursor page c r fine full f)) in
            (r.last_activity_at, ground (arith, f, shown), next, accepted, exact, past)
      ]
