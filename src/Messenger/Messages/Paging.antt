-- ===== src/Messenger/Messages/Paging.antt =====
-- One page of a thread, and what its cursor leads to.
use mathlib.Core.Option
use datha_platform.Base.{
  ℕ, ◌*◌, ◌≤◌, ◌<◌, String, true, ◌==◌, List, map, Option, none, some, arith, if◌then◌else◌, filter,
  length, length-take-le, take, sort_by, last?, eqb, All, All-map, ◌≡◌,
}
use datha_platform.Base.Iso.{IsoDate}
use datha_platform.Base.Queries.{All-sort_by, All-take, filter-All, length-map, All-of-map}
use datha_platform.Messenger.Result.{ok, cast_nullable, bind_ok}
use datha_platform.Messenger.Rows.{MessageRow, Db, read_message, read_date}
use datha_platform.Messenger.Messages.{
  ListMessagesResult, newest_message_first, on_page, list_messages,
}

-- What every row of a page satisfies; the times of `m` are `Date`s.
pub record IsOnPage (conversation_id : String) (m : MessageRow) : Type 0 where
  pub conversation : (m.conversation_id == conversation_id) ≡ true
  pub kept : m.deleted_at ≡ none

row-IsOnPage :
    (id : String) (cut : Option ℕ) (m : MessageRow)
    → on_page id cut m ≡ true
    → IsOnPage id (read_message m)
unfolding read_message
row-IsOnPage id none m h = record { conversation = ground arith; kept = ground arith }
row-IsOnPage id (some t) m h = record { conversation = ground arith; kept = ground arith }

row_before :
    (id : String) (d : ℕ) (m : MessageRow)
    → on_page id (some (d * 1000)) m ≡ true
    → (read_message m).created_at < d
unfolding read_message read_date
row_before id d m h = ground arith

module _ (iso : IsoDate) (id : String) (limit : ℕ) (db : Db) where
  abbrev rows_of : Option ℕ → List MessageRow
  rows_of cut = take limit (sort_by newest_message_first (filter (on_page id cut) db.messages))

  rows-All :
      (cut : Option ℕ) (P : MessageRow → Type 0)
      → ((m : MessageRow) → on_page id cut m ≡ true → P (read_message m))
      → All P (map read_message (rows_of cut))
  rows-All cut P f = All-of-map P read_message (rows_of cut) (
      All-map f (rows_of cut) (
        All-take _ limit _
          (All-sort_by _ newest_message_first _ (filter-All (on_page id cut) db.messages))))

  record Cut (before : Option String) (page : ListMessagesResult) : Type 0 where
    cut : Option ℕ
    casts : cast_nullable iso.cast before ≡ ok cut
    rows : map read_message (rows_of cut) ≡ page.messages
    cursor :
        (if eqb (length page.messages) limit
          then Option.map (λ m. iso.to_iso m.created_at) (last? page.messages)
          else none)
        ≡ page.next_cursor

  list_messages-Cut :
      (before : Option String) (page : ListMessagesResult)
      → list_messages iso id limit before db ≡ ok page
      → Cut before page
  unfolding list_messages
  list_messages-Cut before page h =
      let (cut, casts, same) = bind_ok (cast_nullable iso.cast before) _ h in
      record { cut = cut; casts = casts; rows = cc same; cursor = cc same }

  -- A page holds at most `limit` messages, all of the conversation and none deleted.
  pub list_messages-IsOnPage :
      (before : Option String) (page : ListMessagesResult)
      → list_messages iso id limit before db ≡ ok page
      → (length page.messages ≤ limit) × All (IsOnPage id) page.messages
  list_messages-IsOnPage before page h =
      let c = list_messages-Cut before page h in
      rw (← c.rows) (
        rw length-map (
            length-take-le limit
              (sort_by newest_message_first (filter (on_page id c.cut) db.messages))),
        rows-All c.cut (IsOnPage id) (row-IsOnPage id c.cut),
      )

  -- What a page's own cursor leads to is strictly older than its last message by the millisecond: a
  -- message of the same millisecond that did not fit on the page is on no later page.
  pub list_messages_next :
      (before : Option String) (page next : ListMessagesResult) (last : MessageRow)
      → list_messages iso id limit before db ≡ ok page
      → length page.messages ≡ limit
      → last? page.messages ≡ some last
      → list_messages iso id limit page.next_cursor db ≡ ok next
      → All (λ m. m.created_at < last.created_at) next.messages
  list_messages_next before page next last h full e k =
      let c = list_messages-Cut before page h in
      let n = list_messages-Cut page.next_cursor next k in
      let issued : page.next_cursor ≡ some (iso.to_iso last.created_at) =
        ground (arith, c.cursor) in
      let cut : n.cut ≡ some (last.created_at * 1000) =
        ground (arith, n.casts, issued, iso.cast-to_iso last.created_at) in
      rw (← n.rows) (rows-All n.cut _ (rw cut (row_before id last.created_at)))
