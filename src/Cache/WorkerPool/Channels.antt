-- ===== src/Cache/WorkerPool/Channels.antt =====
-- A buffered channel of Go and the choice of a `select`, as backend/internal/cache/worker_pool.go uses
-- them.
use task_management_api.Shared.{
  ℕ, Bool, true, false, not, ◌&&◌, ◌||◌, Option, none, some, List, [], ◌∷◌, ◌++◌, length, ltb,
  if◌then◌else◌,
}

pub record Channel (A : Type 0) : Type 0 where
  pub buffer : List A
  pub capacity : ℕ
  pub closed : Bool

module _ {A : Type 0} where
  unfoldable pub make_channel : ℕ → Channel A
  make_channel capacity = record { buffer = []; capacity = capacity; closed = false }

  -- A send on a closed channel is ready, to panic.
  unfoldable pub send_ready : Channel A → Bool
  send_ready ch = ch.closed || ltb (length ch.buffer) ch.capacity

  unfoldable pub receive_ready : Channel A → Bool
  receive_ready ch = elim ch.buffer [ [] ↦ ch.closed | x ∷ xs ↦ true ]

  unfoldable pub put : Channel A → A → Channel A
  put ch x = record ch { buffer = ch.buffer ++ x ∷ [] }

  -- `none` is the panic of a second close.
  unfoldable pub close : Channel A → Option (Channel A)
  close ch = if ch.closed then none else some (record ch { closed = true })

pub data Chosen : Type 0 where
  by_channel by_done by_default : Chosen

-- A `select` on a channel and on `ctx.Done()`.
unfoldable pub choose : (done_first ready cancelled : Bool) → Chosen
choose done_first ready cancelled =
    if ready && not (cancelled && done_first)
    then by_channel
    else if cancelled
    then by_done
    else by_default
