-- ===== src/Consume/Group/Loops.antt =====
-- The goroutines of consume.go that repeat an operation on a ticker: reclaimLoop, consumerGCLoop and
-- heartbeatLoop.
pub mod Pages
pub mod Stops
use dasher.Common.{ℕ, zero, suc, String, Bool, true, false, Option, none, some, List, ◌∷◌}
use dasher.Common.Int.{ℤ}
use dasher.Errors.{Error}
use dasher.Handler.{Action}
use dasher.Consume.{Consumer, Runtime}
use dasher.Consume.Group.{Redis, peer_reclaim, gc_consumers}

-- `select` between a tick and `ctx.Done()`.
pub data Wake : Type 0 where
  ticked ctx_done : Wake

-- `time.NewTicker`, which panics for some intervals, the wait for a tick, and `c.inFlight.Load()`.
pub record Ticks (W : Type 0) : Type 0 where
  pub new_ticker : ℤ → Option String
  pub next : Action W Wake
  pub in_flight : W → Option String

-- What a tick came to: the error of the operation, and whether it was logged.
pub record Round : Type 0 where
  pub outcome : Option Error
  pub logged : Bool

-- How a goroutine stands: it returned, a panic left it, or its ticks or the pages of one of its
-- turns were more than the fuel.
pub data Standing : Type 0 where
  stopped : Standing
  crashed : String → Standing
  still_running : Standing

-- `if err := …; err != nil && ctx.Err() == nil { slog… }`
unfoldable pub is_logged : Option Error → Option Error → Bool
is_logged none ctx_err = false
is_logged (some e) none = true
is_logged (some e) (some gone) = false

module _ {W : Type 0} (rt : Runtime W) (ticks : Ticks W) where
  -- The loop; `turn` is what it does on a tick.
  unfoldable pub tick_loop :
      (W → Option (Option Error) × W) → ℕ → W → List Round → Standing × (W × List Round)
  unfolding is_logged
  tick_loop turn zero w rounds = (still_running, (w, rounds))
  tick_loop turn (suc fuel) w rounds =
      let (wake, w₁) = ticks.next w in
      elim wake [
        | ctx_done ↦ (stopped, (w₁, rounds))
        | ticked ↦
            let (result, w₂) = turn w₁ in
            elim result [
              | none ↦ (still_running, (w₂, rounds))
              | some err ↦
                  tick_loop turn fuel w₂
                    (record { outcome = err; logged = is_logged err (rt.ctx_err w₂) } ∷ rounds)
            ]
      ]

  -- `time.NewTicker(d)`, and the loop.
  unfoldable pub on_ticker :
      ℤ → (W → Option (Option Error) × W) → ℕ → W → List Round → Standing × (W × List Round)
  unfolding tick_loop
  on_ticker d turn fuel w rounds = elim (ticks.new_ticker d) [
    | some panic ↦ (crashed panic, (w, rounds))
    | none ↦ tick_loop turn fuel w rounds
  ]

  module _ {I : Type 0} (redis : Redis W) (k : Consumer I W) where
    unfoldable pub reclaim_loop : ℕ → ℕ → W → List Round → Standing × (W × List Round)
    unfolding on_ticker
    reclaim_loop pages = on_ticker k.reclaim_interval (peer_reclaim redis k pages)

    unfoldable pub gc_turn : W → Option (Option Error) × W
    gc_turn w = let (err, w') = gc_consumers redis k w in (some err, w')

    unfoldable pub consumer_gc_loop : ℕ → W → List Round → Standing × (W × List Round)
    unfolding on_ticker gc_turn
    consumer_gc_loop = on_ticker k.consumer_gc_interval gc_turn

    -- `if p := c.inFlight.Load(); p != nil { c.claimFn(ctx, *p) }`
    unfoldable pub beat : W → Option (Option Error) × W
    beat w = elim (ticks.in_flight w) [
      | none ↦ (some none, w)
      | some id ↦ let (err, w') = k.claim_fn id w in (some err, w')
    ]

    unfoldable pub heartbeat_loop : ℕ → W → List Round → Standing × (W × List Round)
    unfolding on_ticker beat
    heartbeat_loop = on_ticker k.heartbeat_interval beat
