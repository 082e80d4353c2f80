-- ===== src/Messenger/Routes/History.antt =====
-- messenger-service/src/routes/calls.ts: the call history.
use datha_platform.Base.{ℕ, String, Bool, not, List, Option, none, some, if◌then◌else◌, or_default}
use datha_platform.Base.Iso.{IsoDate}
use datha_platform.Messenger.Rows.{Db}
use datha_platform.Messenger.Wire.{Call}
use datha_platform.Messenger.Calls.{list_conversation_calls, list_owner_calls}
use datha_platform.Messenger.Authz.{AuthzAction, authorize_conversation}
use datha_platform.Messenger.Routes.{Handled, refuse, answer, Config}

module _ (collate : String → String → Bool) (lifetime now : ℕ) (iso : IsoDate)
    (config : Config) where
  -- GET /calls; the query is its limit, and the limit may be left out.
  unfoldable pub get_calls : String → Option (Option ℕ) → Db → Handled (List Call)
  get_calls owner_id none db = refuse 400 db
  get_calls owner_id (some limit) db =
      answer 200
        (list_owner_calls collate lifetime now iso db owner_id
          (or_default limit config.calls_page_size))
        db

  -- GET /conversations/:id/calls
  unfoldable pub get_conversation_calls :
      String → Option String → Option (Option ℕ) → Db → Handled (List Call)
  get_conversation_calls owner_id none query db = refuse 400 db
  get_conversation_calls owner_id (some id) none db = refuse 400 db
  get_conversation_calls owner_id (some id) (some limit) db =
      let auth =
        authorize_conversation db id owner_id config.default_tenant_id
          AuthzAction.conversation_read in
      if not auth.allowed
      then refuse 404 db
      else answer 200
          (list_conversation_calls collate lifetime now iso db id
            (or_default limit config.calls_page_size))
          db
