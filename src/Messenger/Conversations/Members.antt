-- ===== src/Messenger/Conversations/Members.antt =====
-- Who is in a conversation after `upsertParticipants`, and why `createConversation` may call it.
use datha_platform.Base.{
  ℕ, String, Bool, true, false, not, ◌&&◌, ◌==◌, List, [], ◌∷◌, map, Option, none, arith, any,
  filter, update, ◌≡◌, refl, ap, Bool-cases, inl, inr, eq_iff, eq_refl,
}
use datha_platform.Base.Tables.{any-append}
use datha_platform.Messenger.Result.{ok}
use datha_platform.Messenger.Rows.{ParticipantRow, Db}
use datha_platform.Messenger.Calls.{contains}
use datha_platform.Messenger.Messages.{is_active_member}
use datha_platform.Messenger.Conversations.{
  CreateConversationInput, unique, members_of, has_duplicate, is_row_of_owner, join_rows, role_for,
  upsert_participants,
}

pub contains-filter :
    (keep : String → Bool) (xs : List String) (x : String)
    → contains (filter keep xs) x ≡ (contains xs x && keep x)
unfolding filter any
contains-filter keep [] x = refl
contains-filter keep (y ∷ ys) x = elim (Bool-cases (y == x)) [
  | inl e ↦ ground (
    arith,
    e,
    ap keep ((eq_iff y x).0 e),
    contains-filter keep ys x,
    Bool-cases (keep y),
    Bool-cases (keep x),
    Bool-cases (contains ys x),
  )
  | inr e ↦ ground (arith, e, contains-filter keep ys x, Bool-cases (keep y))
]

has_duplicate-filter :
    (keep : String → Bool) (xs : List String)
    → has_duplicate xs ≡ false
    → has_duplicate (filter keep xs) ≡ false
unfolding filter has_duplicate
has_duplicate-filter keep [] h = refl
has_duplicate-filter keep (x ∷ xs) h = ground (
  arith,
  contains-filter keep xs x,
  has_duplicate-filter keep xs,
  Bool-cases (keep x),
  Bool-cases (contains xs x),
)

pub has_duplicate-unique : (xs : List String) → has_duplicate (unique xs) ≡ false
unfolding unique has_duplicate
has_duplicate-unique [] = refl
has_duplicate-unique (x ∷ xs) = ground (
  arith,
  contains-filter (λ y. not (y == x)) (unique xs) x,
  eq_refl x,
  has_duplicate-filter (λ y. not (y == x)) (unique xs) (has_duplicate-unique xs),
)

-- `createConversation` never hands the upsert a list that names somebody twice, whatever list of
-- ids the caller sent.
pub has_duplicate-members_of :
    (input : CreateConversationInput) → has_duplicate (members_of input) ≡ false
unfolding members_of
has_duplicate-members_of input =
    has_duplicate-filter (λ id. not (id == ""))
      (unique (input.owner_id ∷ input.participant_owner_ids))
      (has_duplicate-unique (input.owner_id ∷ input.participant_owner_ids))

abbrev pub touched_row : String → List String → ParticipantRow → Bool
touched_row id owners p = p.conversation_id == id && contains owners p.owner_id

abbrev pub rejoin : ParticipantRow → ParticipantRow
rejoin p = record p { left_at = none }

rejoined :
    (id : String) (owners : List String) (rows : List ParticipantRow) (x : String)
    → contains owners x ≡ true
    → any (is_row_of_owner id x) rows ≡ true
    → any (is_active_member id x) (update (touched_row id owners) rejoin rows) ≡ true
unfolding any update
rejoined id owners [] x h e = ground arith
rejoined id owners (p ∷ rows) x h e = elim (Bool-cases (is_row_of_owner id x p)) [
  | inl f ↦ ground (arith, f, h, ap (contains owners) ((eq_iff p.owner_id x).0 (ground arith)))
  | inr f ↦ ground (arith, f, rejoined id owners rows x h (ground arith))
]

abbrev pub joined : ℕ → String → Option String → String → ParticipantRow
joined now id admin owner = record {
  conversation_id = id;
  owner_id = owner;
  role = role_for admin owner;
  joined_at = now;
  left_at = none;
  last_read_at = none;
  muted_until = none;
}

inserted :
    (now : ℕ) (id : String) (admin : Option String) (owners : List String)
    (rows : List ParticipantRow) (x : String)
    → contains owners x ≡ true
    → any (is_row_of_owner id x) rows ≡ false
    → any
        (is_active_member id x)
        (map (joined now id admin) (filter (λ o. not (any (is_row_of_owner id o) rows)) owners))
      ≡ true
unfolding filter any
inserted now id admin [] rows x h e = ground arith
inserted now id admin (o ∷ owners) rows x h e = elim (Bool-cases (o == x)) [
  | inl f ↦
      let missing : any (is_row_of_owner id o) rows ≡ false = rw ((eq_iff o x).0 f) e in
      ground (arith, missing, f, eq_refl id)
  | inr f ↦ ground (
    arith,
    f,
    h,
    inserted now id admin owners rows x (ground arith) e,
    Bool-cases (any (is_row_of_owner id o) rows),
  )
]

abbrev pub missing_ones : String → List ParticipantRow → List String → List String
missing_ones id rows owners = filter (λ o. not (any (is_row_of_owner id o) rows)) owners

-- A listed member whose row exists is active after the UPDATE, and one without a row is inserted.
join_rows-active :
    (now : ℕ) (id : String) (owners : List String) (admin : Option String)
    (rows : List ParticipantRow) (x : String)
    → contains owners x ≡ true
    → any (is_active_member id x) (join_rows now id owners admin rows) ≡ true
unfolding join_rows
join_rows-active now id owners admin rows x h =
    elim (Bool-cases (any (is_row_of_owner id x) rows)) [
      | inl e ↦ ground (
        arith,
        any-append (is_active_member id x) (update (touched_row id owners) rejoin rows)
            (map (joined now id admin) (missing_ones id rows owners)),
        rejoined id owners rows x h e,
      )
      | inr e ↦ ground (
        arith,
        any-append (is_active_member id x) (update (touched_row id owners) rejoin rows)
            (map (joined now id admin) (missing_ones id rows owners)),
        inserted now id admin owners rows x h e,
      )
    ]

-- Everybody whom an accepted upsert names is in the conversation from then on, whether new, in it
-- already, or back after having left.
pub upsert_participants-active :
    (now : ℕ) (id : String) (owners : List String) (admin : Option String) (db db' : Db)
    (touched : List ParticipantRow) (x : String)
    → upsert_participants now id owners admin db ≡ ok (touched, db')
    → contains owners x ≡ true
    → any (is_active_member id x) db'.participants ≡ true
unfolding upsert_participants
upsert_participants-active now id owners admin db db' touched x h e =
    ground (arith, join_rows-active now id owners admin db.participants x e)
