-- ===== src/Server/Fetch/Poll.antt =====
-- internal/server/handlers.go: the long poll of the Fetch handler.
use mq.Common.{
  ℕ, ◌+◌, ◌*◌, ◌==◌, Bool, ◌||◌, Option, none, some, List, [], ◌∷◌, Bytes, Int32, leb, ltb,
  is_neg32, lt_i32, if◌then◌else◌,
}
use mq.Common.Keys.{bytes_eq, nat_eq, pair_eq}
use mq.Protocol.Fetch.Request.{FetchRequest}
use mq.Protocol.Fetch.Response.{FetchResponse}
use mq.Storage.Backend.{Backend}
use mq.Broker.{Broker, Time}
use mq.Server.Fetch.{Gathered, build_fetch}

-- The time that a fetch may wait, in nanoseconds: at most 5 seconds, and none if it is negative.
unfoldable pub fetch_wait : Int32 → ℕ
fetch_wait max_wait_ms =
    if is_neg32 max_wait_ms
    then 0
    else if ltb 5_000_000_000 (max_wait_ms * 1_000_000)
    then 5_000_000_000
    else max_wait_ms * 1_000_000

-- min_bytes, which is one at least
unfoldable pub least_bytes : Int32 → Int32
least_bytes n = if lt_i32 n 1 then 1 else n

-- Whether a round ends the poll.
unfoldable pub poll_ends : FetchRequest → Time → Time → ℕ → Bool → Bool
poll_ends req began now total hard =
    hard
    || (leb (least_bytes req.min_bytes) total
        || (fetch_wait req.max_wait_ms == 0 || leb (began + fetch_wait req.max_wait_ms) now))

-- What one poll meets: the clock when its records are read and when it is done, and what the other
-- requests make of the broker while it sleeps behind it.
pub record Tick (L : Type 0) : Type 0 where
  pub reads_at : Time
  pub done_at : Time
  pub meanwhile : Broker L → Broker L

module _ {L : Type 0} (k : Backend L) (open_log : Bytes → Int32 → Option L) where
  abbrev poll_next :
      FetchRequest
      → Time
      → Tick L
      → Option (Gathered FetchResponse × Broker L)
      → (Broker L → Option (FetchResponse × Broker L))
      → Option (FetchResponse × Broker L)
  poll_next req began tick none next = none
  poll_next req began tick (some ((resp, total, hard), b)) next =
      let more = next (tick.meanwhile b) in
      if poll_ends req began tick.done_at total hard then some (resp, b) else more

  -- The long poll, over the ticks that it meets; `none` is a panic, or a poll that still goes on.
  unfoldable pub fetch_loop :
      FetchRequest → Time → Broker L → List (Tick L) → Option (FetchResponse × Broker L)
  fetch_loop req began b [] = none
  fetch_loop req began b (tick ∷ ticks) =
      poll_next req began tick (build_fetch k open_log req b tick.reads_at)
        (λ b'. fetch_loop req began b' ticks)
