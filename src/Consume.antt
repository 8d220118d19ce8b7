-- ===== src/Consume.antt =====
-- The consumer of one stream, dasher/internal/consume/consume.go: its settings, its construction,
-- and what its processing of an entry reads and records.
pub mod Options
pub mod Process
pub mod Commands
pub mod Group
use dasher.Common.{ℕ, String, Bool, Option, none, some, List, [], ◌∷◌}
use dasher.Common.Int.{ℤ, pos}
use dasher.Errors.{Error}
use dasher.Event.{Event}
use dasher.Handler.{Action, Handler, Policy, Outcome}

-- Durations in nanoseconds.
abbrev pub millisecond : ℕ
millisecond = 1000000

abbrev pub second : ℕ
second = 1000000000

-- The settings of a consumer. The Redis client stands in the functions `ack_fn` and `claim_fn`,
-- and the entry in flight in the state of a run.
pub record Consumer (I W : Type 0) : Type 0 where
  pub stream : String
  pub group : String
  pub name : String
  pub handler : Handler I W
  pub inst : I
  pub policy : Policy W
  pub escalate_after : ℤ
  pub block : ℤ
  pub count : ℕ
  pub reclaim_min_idle : ℤ
  pub reclaim_interval : ℤ
  pub consumer_gc_interval : ℤ
  pub consumer_gc_timeout : ℤ
  pub heartbeat_interval : ℤ
  pub ack_fn : String → Action W (Option Error)
  pub claim_fn : String → Action W (Option Error)

-- The context and the clock, as the loops use them: `ctx.Err()`, and the choice between
-- `time.After(d)` and `ctx.Done()`, which yields an error if the context was cancelled.
pub record Runtime (W : Type 0) : Type 0 where
  pub ctx_err : W → Option Error
  pub wait : ℕ → Action W (Option Error)

pub data Level : Type 0 where
  warn error : Level

-- The loops that `Run` starts beside its own: `reclaimLoop`, `consumerGCLoop` and `heartbeatLoop`.
pub data Goroutine : Type 0 where
  reclaiming : Goroutine
  collecting : Goroutine
  beating : Goroutine

-- What a run did, as an observer sees it. `handled` records the entry published as in flight when
-- the handler was called.
pub data Deed : Type 0 where
  handled : Option String → Outcome → Deed
  acked : String → Option Error → Deed
  retried : Level → ℕ → ℕ → Deed
  ack_failed : String → Deed
  slept : ℕ → Deed
  fatal : Error → Deed
  spawned : Goroutine → Deed

-- The state of a run: the world, the entry in flight, and the deeds, the last one first.
pub record Run (W : Type 0) : Type 0 where
  pub world : W
  pub in_flight : Option String
  pub deeds : List Deed

-- How a loop ends: it returns an error or nil, a panic leaves it, or its fuel is used up.
pub data Exit : Type 0 where
  exited : Option Error → Exit
  thrown : String → Exit
  out_of_fuel : Exit
