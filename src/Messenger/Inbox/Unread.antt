-- ===== src/Messenger/Inbox/Unread.antt =====
-- The two unread predicates, `isUnreadFor` of a conversation and the SQL of
-- `getUnreadConversationIds`, and what reading the newest message does to them.
use mathlib.Core.Option
use datha_platform.Base.{
  String, Bool, true, false, ◌&&◌, ◌==◌, List, [], ◌∷◌, map, Option, some, arith, any, find, filter,
  update, ◌≡◌, refl, sym, ap, ◌⊎◌, subst, ◌∙◌, Bool-cases, inl, inr, eq_iff,
}
use datha_platform.Base.Queries.{any-update}
use datha_platform.Messenger.Rows.{
  ConversationRow, ParticipantRow, MessageRow, Db, read_message, read_participant, read_date,
}
use datha_platform.Messenger.Calls.{contains}
use datha_platform.Messenger.Messages.{MarkReadResult, is_active_member, mark_at, mark_read}
use datha_platform.Messenger.Messages.Watermark.{mark_read-Marked, is_message}
use datha_platform.Messenger.Inbox.{
  newest_message, is_unread_for, is_unread_row, get_unread_conversation_ids,
}

-- A conversation that its own entry shows as unread is unread for the set of unread ids too: the
-- driver's milliseconds can only hide a difference that the tables have.
pub is_unread_for-is_unread_row :
    (owner : String) (p : ParticipantRow) (newest : Option MessageRow)
    → is_unread_for owner (read_participant p).last_read_at (Option.map read_message newest) ≡ true
    → is_unread_row owner p.last_read_at newest ≡ true
unfolding is_unread_for is_unread_row read_participant read_message read_date
is_unread_for-is_unread_row owner p newest h = ground arith

-- And the other way round, unless the watermark and the newest message share their millisecond.
pub is_unread_row-is_unread_for :
    (owner : String) (p : ParticipantRow) (m : MessageRow)
    → is_unread_row owner p.last_read_at (some m) ≡ true
    → (Option.map read_date p.last_read_at ≡ some (read_date m.created_at))
      ⊎ (is_unread_for owner (read_participant p).last_read_at (some (read_message m)) ≡ true)
unfolding is_unread_for is_unread_row read_participant read_message read_date
is_unread_row-is_unread_for owner p m h = ground arith

row_read :
    (c o : String) (m : MessageRow) (p : ParticipantRow)
    → is_active_member c o p ≡ true
    → (is_active_member c o (mark_at m.created_at p)
        && is_unread_row o (mark_at m.created_at p).last_read_at (some m))
      ≡ false
unfolding is_unread_row
row_read c o m p h = ground arith

not_selected :
    (c : String) (chosen : ConversationRow → Bool) (cs : List ConversationRow)
    → ((k : ConversationRow) → (k.id == c) ≡ true → chosen k ≡ false)
    → contains (map (λ k. k.id) (filter chosen cs)) c ≡ false
unfolding filter any
not_selected c chosen [] h = refl
not_selected c chosen (k ∷ cs) h = elim (Bool-cases (k.id == c)) [
  | inl e ↦ ground (arith, e, h k e, not_selected c chosen cs h)
  | inr e ↦ ground (arith, e, Bool-cases (chosen k), not_selected c chosen cs h)
]

-- The participants after the call hold no row that is active in `c`, of `o`, and behind `m`.
all_read :
    (c o : String) (m : MessageRow) (ps : List ParticipantRow)
    → any
        (λ p. is_active_member c o p && is_unread_row o p.last_read_at (some m))
        (update (is_active_member c o) (mark_at m.created_at) ps)
      ≡ false
all_read c o m ps =
    any-update (is_active_member c o) _ (mark_at m.created_at) (row_read c o m)
      (λ p e. ground (arith, e)) ps

-- Reading a conversation's newest message takes the conversation out of the caller's unread set.
pub mark_read-get_unread_conversation_ids :
    (c o : String) (m : MessageRow) (db db' : Db) (r : MarkReadResult)
    → newest_message db c ≡ some m
    → find (is_message c m.id) db.messages ≡ some m
    → mark_read c o m.id db ≡ some (r, db')
    → contains (get_unread_conversation_ids o db') c ≡ false
unfolding get_unread_conversation_ids newest_message
mark_read-get_unread_conversation_ids c o m db db' r newest named h =
    let k = mark_read-Marked c o m.id db db' r h in
    let newest' : newest_message db' c ≡ some m = (λ i. newest_message (k.after i) c) ∙ newest in
    let same : k.message ≡ m = ground (arith, k.named, named) in
    let rows : db'.participants
        ≡ update (is_active_member c o) (mark_at m.created_at) db.participants =
      ap (λ d. d.participants) k.after
      ∙ ap (λ x. update (is_active_member c o) (mark_at x.created_at) db.participants) same in
    not_selected c _ db'.conversations (λ row e.
      let at : row.id ≡ c = (eq_iff row.id c).0 e in
      let quiet : any
            (λ p.
              is_active_member row.id o p
              && is_unread_row o p.last_read_at (newest_message db' row.id))
            db'.participants
          ≡ false =
        subst
          (λ x.
            any
              (λ p. is_active_member x o p && is_unread_row o p.last_read_at (newest_message db' x))
              db'.participants
            ≡ false)
          (sym at)
          (subst
            (λ t.
              any (λ p. is_active_member c o p && is_unread_row o p.last_read_at t) db'.participants
              ≡ false)
            (sym newest')
            (subst
              (λ ps.
                any (λ p. is_active_member c o p && is_unread_row o p.last_read_at (some m)) ps
                ≡ false)
              (sym rows) (all_read c o m db.participants))) in
      ground (arith, quiet))
