-- ===== src/Messenger/Wire/Settling.antt =====
-- What `settleStaleCall` promises to every reader of a call row.
use datha_platform.Base.{ℕ, ◌+◌, ◌*◌, ◌<◌, ◌≡◌, ◌⊎◌, none, arith}
use datha_platform.Messenger.Rows.{CallRow, CallStatus}
use datha_platform.Messenger.Wire.{call_status, settle_stale_call}

-- A settled row is shown as ringing or active only while its lifetime lasts: its call has no end
-- and its start plus the lifetime lies after `now`.
pub settle_live :
    (row : CallRow) (lifetime now : ℕ)
    → (call_status (settle_stale_call row lifetime now) ≡ CallStatus.ringing)
      ⊎ (call_status (settle_stale_call row lifetime now) ≡ CallStatus.active)
    → (row.ended_at ≡ none) × (now < row.started_at + lifetime * 1000)
unfolding call_status settle_stale_call
settle_live row lifetime now h = ground arith
