-- ===== src/Messenger/Routes/Rereads.antt =====
-- A watermark that a client reports twice.
use mathlib.Core.Option
use datha_platform.Base.{
  String, true, false, ◌&&◌, ◌==◌, List, some, arith, find, ◌≡◌, Option-cases, Bool-cases, inl, inr,
  ap, sym, ◌∙◌,
}
use datha_platform.Base.Iso.{IsoDate}
use datha_platform.Messenger.Rows.{MessageRow, Db, read_message}
use datha_platform.Messenger.Messages.{get_message, mark_read, MarkReadResult}
use datha_platform.Messenger.Messages.Watermark.{mark_read_repeat, mark_read-Marked, Marked-found}
use datha_platform.Messenger.Authz.{AuthzAction, is_live, authorize_conversation}
use datha_platform.Messenger.Authz.Decisions.{authorize_conversation-permits}
use datha_platform.Messenger.Routes.{answer, Config}
use datha_platform.Messenger.Routes.Threads.{participants_of}
use datha_platform.Messenger.Routes.Chats.{post_read, on_marked}

-- A mark keeps its caller in, and the message where it was.
mark_read-allowed :
    (id owner message_id : String) (db d : Db) (r : MarkReadResult) (tenant : String)
    (action : AuthzAction)
    → mark_read id owner message_id db ≡ some (r, d)
    → (authorize_conversation d id owner tenant action).allowed
      ≡ (authorize_conversation db id owner tenant action).allowed
mark_read-allowed id owner message_id db d r tenant action h =
    let k = mark_read-Marked id owner message_id db d r h in
    let chats : d.conversations ≡ db.conversations = ap (λ x. x.conversations) k.after in
    ground (
      arith,
      k.found,
      Marked-found id owner message_id db d r k,
      chats,
      Option-cases (find (is_live id) db.conversations),
      authorize_conversation-permits db id owner tenant action,
      authorize_conversation-permits d id owner tenant action,
    )

mark_read-get_message :
    (id owner message_id : String) (db d : Db) (r : MarkReadResult)
    → mark_read id owner message_id db ≡ some (r, d)
    → get_message id message_id d ≡ get_message id message_id db
unfolding get_message
mark_read-get_message id owner message_id db d r h =
    let k = mark_read-Marked id owner message_id db d r h in
    ap
      (λ x.
        Option.map read_message
          (find (λ m. m.id == message_id && m.conversation_id == id) x.messages))
      k.after

-- The reply to a caller who was let in, for a message that exists and a mark that was accepted.
post_read-on_marked :
    (iso : IsoDate) (config : Config) (owner id message_id : String) (db d : Db) (m : MessageRow)
    (r : MarkReadResult)
    → (authorize_conversation db id owner config.default_tenant_id AuthzAction.message_read).allowed
      ≡ true
    → get_message id message_id db ≡ some m
    → mark_read id owner message_id db ≡ some (r, d)
    → post_read iso config owner (some id) (some message_id) db
      ≡ on_marked iso owner id
          (participants_of
            (authorize_conversation db id owner config.default_tenant_id
              AuthzAction.message_read).facts)
          r
          d
unfolding post_read
post_read-on_marked iso config owner id message_id db d m r e f g = ground (arith, e, f, g)

on_marked-body :
    (iso : IsoDate) (owner id : String) (people : List String) (r : MarkReadResult) (db : Db)
    (at : String)
    → (on_marked iso owner id people r db).body ≡ some at
    → (iso.to_iso r.last_read_at ≡ at) × ((on_marked iso owner id people r db).db ≡ db)
unfolding on_marked
on_marked-body iso owner id people r db at h = elim (Bool-cases r.advanced) [
  | inl e ↦ (ground (arith, e, h), ground (arith, e))
  | inr e ↦ (ground (arith, e, h), ground (arith, e))
]

record Read (iso : IsoDate) (config : Config) (owner id message_id : String) (db : Db) (at : String)
    (after : Db) : Type 0 where
  message : MessageRow
  result : MarkReadResult
  allowed :
      (authorize_conversation db id owner config.default_tenant_id AuthzAction.message_read).allowed
      ≡ true
  found : get_message id message_id db ≡ some message
  marks : mark_read id owner message_id db ≡ some (result, after)
  shown : iso.to_iso result.last_read_at ≡ at

post_read-Read :
    (iso : IsoDate) (config : Config) (owner id message_id : String) (db : Db) (at : String)
    → (post_read iso config owner (some id) (some message_id) db).body ≡ some at
    → Read iso config owner id message_id db at
        (post_read iso config owner (some id) (some message_id) db).db
unfolding post_read
post_read-Read iso config owner id message_id db at h =
    elim (Bool-cases
      (authorize_conversation db id owner config.default_tenant_id
        AuthzAction.message_read).allowed) [
          | inl e ↦ elim (Option-cases (get_message id message_id db)) [
            | inl f ↦ ground (arith, e, f, h)
            | inr (m, f) ↦ elim (Option-cases (mark_read id owner message_id db)) [
              | inl g ↦ ground (arith, e, f, g, h)
              | inr ((r, d), g) ↦
                  let is = post_read-on_marked iso config owner id message_id db d m r e f g in
                  let people =
                    participants_of
                      (authorize_conversation db id owner config.default_tenant_id
                        AuthzAction.message_read).facts in
                  let (shown, kept) =
                    on_marked-body iso owner id people r d at (sym (ap (λ x. x.body) is) ∙ h) in
                  record {
                    message = m;
                    result = r;
                    allowed = e;
                    found = f;
                    marks = g ∙ ap (λ x. some (r, x)) (sym (ap (λ x. x.db) is ∙ kept));
                    shown = shown;
                  }
            ]
          ]
          | inr e ↦ ground (arith, e, h)
        ]

-- A watermark reported again, once accepted, is answered with the same time and status 200; the
-- second report announces nothing and writes nothing.
pub post_read_repeat :
    (iso : IsoDate) (config : Config) (owner id message_id : String) (db : Db) (at : String)
    → (post_read iso config owner (some id) (some message_id) db).body ≡ some at
    → post_read iso config owner
        (some id)
        (some message_id)
        (post_read iso config owner (some id) (some message_id) db).db
      ≡ answer 200 at (post_read iso config owner (some id) (some message_id) db).db
unfolding on_marked
post_read_repeat iso config owner id message_id db at h =
    let after = (post_read iso config owner (some id) (some message_id) db).db in
    let k = post_read-Read iso config owner id message_id db at h in
    post_read-on_marked iso config owner id message_id after after k.message
      (record { last_read_at = k.result.last_read_at; advanced = false })
      (mark_read-allowed id owner message_id db after k.result config.default_tenant_id
          AuthzAction.message_read k.marks
        ∙ k.allowed)
      (mark_read-get_message id owner message_id db after k.result k.marks ∙ k.found)
      (mark_read_repeat id owner message_id db after k.result k.marks)
    ∙ ap (λ x. answer 200 x after) k.shown
