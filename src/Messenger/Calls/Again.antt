-- ===== src/Messenger/Calls/Again.antt =====
-- One event projected twice: the second transaction finds every row as it would leave it.
use datha_platform.Base.{
  ℕ, String, Bool, true, false, not, ◌&&◌, ◌||◌, ◌==◌, List, [], ◌∷◌, ◌++◌, map, arith, ◌∙◌, some,
  find, any, filter, update, ◌≡◌, refl, eq_iff, Bool-cases, Option-cases, inl, inr, ap, sym, subst,
  coalesce, Option, none,
}
use datha_platform.Base.Tables.{any-eq-is_some}
use datha_platform.Base.Queries.{update-update, any-last}
use datha_platform.Messenger.Result.{ok}
use datha_platform.Messenger.Rows.{CallRow, CallParticipantRow, ConversationRow, Db}
use datha_platform.Messenger.Calls.{
  upsert_call, merge_call, contains, distinct, is_row_of, upsert_call_participants, touch_activity,
  project_row, is_empty,
}
use datha_platform.Messenger.Calls.Refines.{written, bind_inv}
use datha_platform.Messenger.Calls.View.{contains-distinct, inserted, joined_of-upsert}

update-append {ℓ} :
    {A : Type ℓ} (p : A → Bool) (f : A → A) (xs ys : List A)
    → update p f (xs ++ ys) ≡ update p f xs ++ update p f ys
unfolding update
update-append p f [] ys = refl
update-append p f (x ∷ xs) ys = ground (arith, update-append p f xs ys)

update_none {ℓ} :
    {A : Type ℓ} (p : A → Bool) (f : A → A) (xs : List A) → any p xs ≡ false → update p f xs ≡ xs
unfolding update any
update_none p f [] h = refl
update_none p f (x ∷ xs) h = ground (arith, update_none p f xs)

update_fixed {ℓ} :
    {A : Type ℓ} (p : A → Bool) (f : A → A) (h : String → A) (os : List String)
    → ((o : String) → f (h o) ≡ h o)
    → update p f (map h os) ≡ map h os
unfolding update
update_fixed p f h [] fixed = refl
update_fixed p f h (o ∷ os) fixed = ground (arith, fixed o, update_fixed p f h os fixed)

coalesce_again {ℓ} : {A : Type ℓ} (x a : Option A) → coalesce (coalesce x a) a ≡ coalesce x a
coalesce_again none none = refl
coalesce_again none (some a) = refl
coalesce_again (some x) a = refl

merge_call_again : (c row : CallRow) → merge_call (merge_call c row) row ≡ merge_call c row
unfolding merge_call
merge_call_again c row = ground (
  arith,
  coalesce_again c.answered_at row.answered_at,
  coalesce_again c.ended_at row.ended_at,
  coalesce_again c.end_reason row.end_reason,
)

merge_call_self : (row : CallRow) → merge_call row row ≡ row
unfolding merge_call
merge_call_self row = ground (
  arith,
  coalesce_again none row.answered_at,
  coalesce_again none row.ended_at,
  coalesce_again none row.end_reason,
)

touch_activity_again :
    (id : String) (at : ℕ) (rows : List ConversationRow)
    → touch_activity id at (touch_activity id at rows) ≡ touch_activity id at rows
unfolding touch_activity
touch_activity_again id at rows = update-update _ _ (λ c. refl) (λ c. ground arith) rows

append_nil {ℓ} : {A : Type ℓ} (xs : List A) → xs ++ [] ≡ xs
append_nil [] = refl
append_nil (x ∷ xs) = ap (λ l. x ∷ l) (append_nil xs)

any_kept {ℓ} :
    {A : Type ℓ} (p q : A → Bool) (f : A → A)
    → ((x : A) → q (f x) ≡ q x)
    → (xs : List A) → any q (update p f xs) ≡ any q xs
unfolding any update
any_kept p q f keep [] = refl
any_kept p q f keep (x ∷ xs) = ground (arith, keep x, any_kept p q f keep xs)

filter_refuses :
    (p : String → Bool) (xs : List String)
    → ((o : String) → contains xs o ≡ true → p o ≡ false)
    → filter p xs ≡ []
unfolding filter any
filter_refuses p [] h = refl
filter_refuses p (x ∷ xs) h =
    let own : contains (x ∷ xs) x ≡ true = ground (arith, (eq_iff x x).1 refl) in
    ground (arith, h x own, filter_refuses p xs (λ o e. h o (ground (arith, e))))

module _ (call : String) (invited joined : List String) (rows : List CallParticipantRow) where
  -- Whoever the event names has a row after it.
  recorded :
      (o : String)
      → contains (invited ++ joined) o ≡ true
      → any (is_row_of call o) (upsert_call_participants call invited joined rows) ≡ true
  recorded o named =
      let after = upsert_call_participants call invited joined rows in
      let before = find (is_row_of call o) rows in
      elim (Option-cases (find (is_row_of call o) after)) [
        | inl missing ↦ elim (Option-cases before) [
          | inl e ↦ ground (
            arith,
            joined_of-upsert call invited joined rows call o,
            e,
            (eq_iff call call).1 refl,
          )
          | inr (r, e) ↦ ground (
            arith,
            joined_of-upsert call invited joined rows call o,
            e,
            (eq_iff call call).1 refl,
          )
        ]
        | inr (r, found) ↦ ground (arith, any-eq-is_some (is_row_of call o) after)
      ]

  upsert_call_participants_again :
      upsert_call_participants call invited joined
        (upsert_call_participants call invited joined rows)
      ≡ upsert_call_participants call invited joined rows
  unfolding upsert_call_participants
  upsert_call_participants_again =
      let ids = distinct (invited ++ joined) in
      let hit = λ (r : CallParticipantRow). r.call_id == call && contains ids r.owner_id in
      let rejoin =
        λ (r : CallParticipantRow). record r { joined = r.joined || contains joined r.owner_id } in
      let kept = update hit rejoin rows in
      let new = map (inserted call joined) (filter (λ o. not (any (is_row_of call o) rows)) ids) in
      rw
        (
          update-append hit rejoin kept new,
          update-update hit rejoin (λ r. refl)
              (λ r. ground (arith, Bool-cases r.joined, Bool-cases (contains joined r.owner_id)))
              rows,
          update_fixed hit rejoin (inserted call joined)
              (filter (λ o. not (any (is_row_of call o) rows)) ids)
              (λ o. ground (arith, Bool-cases (contains joined o))),
          filter_refuses (λ o. not (any (is_row_of call o) (kept ++ new))) ids
              (λ o e.
                ground (arith, recorded o (sym (contains-distinct (invited ++ joined) o) ∙ e))),
        )
        (append_nil (kept ++ new))

-- Whatever the other two statements have written meanwhile.
upsert_call_again :
    (row : CallRow) (db d : Db) (people : List CallParticipantRow) (chats : List ConversationRow)
    → upsert_call row db ≡ ok d
    → upsert_call row (record d { call_participants = people; conversations = chats })
      ≡ ok (record d { call_participants = people; conversations = chats })
unfolding upsert_call update
upsert_call_again row db d people chats h =
    let own = λ (c : CallRow). c.id == row.id in
    let merge = λ (c : CallRow). merge_call c row in
    let id_kept : (c : CallRow) → own (merge c) ≡ own c = λ c. unfold merge_call in refl in
    elim (Bool-cases (any own db.calls)) [
      | inl old ↦
          let same : record db { calls = update own merge db.calls } ≡ d = ground (arith, h, old) in
          subst
            (λ (d : Db).
              upsert_call row (record d { call_participants = people; conversations = chats })
              ≡ ok (record d { call_participants = people; conversations = chats }))
            same
            (rw
              (
                any_kept own own merge id_kept db.calls,
                old,
                update-update own merge id_kept (λ c. merge_call_again c row) db.calls,
              )
              refl)
      | inr new ↦
          let same : record db { calls = db.calls ++ (row ∷ []) } ≡ d = ground (arith, h, new) in
          subst
            (λ (d : Db).
              upsert_call row (record d { call_participants = people; conversations = chats })
              ≡ ok (record d { call_participants = people; conversations = chats }))
            same
            (rw
              (
                any-last own db.calls row ((eq_iff row.id row.id).1 refl),
                update-append own merge db.calls (row ∷ []),
                update_none own merge db.calls new,
                (eq_iff row.id row.id).1 refl,
                merge_call_self row,
              )
              refl)
    ]

-- The transaction run again on what it has left.
pub project_row_again :
    (row : CallRow) (invited joined : List String) (at : ℕ) (db db' : Db)
    → project_row row invited joined at db ≡ ok db'
    → project_row row invited joined at db' ≡ ok db'
unfolding project_row
project_row_again row invited joined at db db' h =
    let (d, upserted, same) = bind_inv (upsert_call row db) (written row invited joined at) db' h in
    let after = written row invited joined at d in
    subst (λ x. project_row row invited joined at x ≡ ok x) same
      (rw
        (
          upsert_call_again row db d after.call_participants after.conversations upserted,
          touch_activity_again row.conversation_id at d.conversations,
        )
        (elim (Bool-cases (is_empty invited && is_empty joined)) [
          | inl e ↦ rw e refl
          | inr e ↦
              rw (e, upsert_call_participants_again row.id invited joined d.call_participants) refl
        ]))
