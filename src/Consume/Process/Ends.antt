-- ===== src/Consume/Process/Ends.antt =====
-- When `process` returns, what it returns then, and the entry in flight.
use dasher.Common.{ℕ, zero, suc, ◌+◌, ◌≤◌, ◌<◌, String, false, none, some, ◌≡◌, ◌≢◌, arith}
use dasher.Errors.{Error, is_poison}
use dasher.Event.{Event, Codec}
use dasher.Event.Parse.{parse, ok}
use dasher.Handler.{returned, panicked}
use dasher.Consume.{Consumer, Runtime, Run, Exit, exited, thrown, out_of_fuel}
use dasher.Consume.Process.{
  Message, call_ack, call_handler, pause, on_fatal, ack_loop, handle_loop, leave, process,
}

-- An exit by a return.
abbrev pub Returns : Exit → Type 0
Returns (exited e) = Unit
Returns (thrown v) = ⊥
Returns out_of_fuel = ⊥

-- The world holds finitely many failures: `budget` bounds how many calls of the handler and of
-- `XACK` still fail.
pub record HasBudget {I W : Type 0} (rt : Runtime W) (k : Consumer I W) (budget : W → ℕ)
    : Type 0 where
  pub handler_le : (evt : Event) (w : W) → budget (k.handler k.inst evt w).1 ≤ budget w
  pub handler_lt :
      (evt : Event) (w : W) (e : Error)
      → (k.handler k.inst evt w).0 ≡ returned (some e)
      → budget (k.handler k.inst evt w).1 < budget w
  pub ack_lt :
      (id : String) (w : W) (e : Error)
      → (k.ack_fn id w).0 ≡ some e
      → budget (k.ack_fn id w).1 < budget w
  pub wait_le : (d : ℕ) (w : W) → budget (rt.wait d w).1 ≤ budget w

-- The handler neither panics nor returns poison, and the context is never cancelled.
pub record IsCalm {I W : Type 0} (rt : Runtime W) (k : Consumer I W) : Type 0 where
  pub no_panic : (evt : Event) (w : W) (v : String) → (k.handler k.inst evt w).0 ≢ panicked v
  pub no_poison :
      (evt : Event) (w : W) (e : Error)
      → (k.handler k.inst evt w).0 ≡ returned (some e)
      → is_poison e ≡ false
  pub no_cancel : (w : W) → rt.ctx_err w ≡ none
  pub no_done : (d : ℕ) (w : W) → (rt.wait d w).0 ≡ none

module _ {I W : Type 0} (rt : Runtime W) (k : Consumer I W) where
  module _ (budget : W → ℕ) (b : HasBudget rt k budget) where
    ack_loop-ends :
        (fuel : ℕ) (id : String) (s : Run W)
        → budget s.world < fuel
        → (ack_loop rt k fuel id s).0 ≢ out_of_fuel
    unfolding ack_loop call_ack pause
    ack_loop-ends zero id s h = absurd (omega arith)
    ack_loop-ends (suc fuel) id s h =
        grind (arith, b.ack_lt id s.world, b.wait_le, ack_loop-ends fuel id)

    handle_loop-ends :
        (fuel : ℕ) (id : String) (evt : Event) (backoff retries : ℕ) (s : Run W)
        → budget s.world + 1 < fuel
        → (handle_loop rt k fuel id evt backoff retries s).0 ≢ out_of_fuel
    unfolding handle_loop call_handler pause on_fatal
    handle_loop-ends zero id evt backoff retries s h = absurd (omega arith)
    handle_loop-ends (suc fuel) id evt backoff retries s h = grind (
      arith,
      b.handler_le evt s.world,
      b.handler_lt evt s.world,
      b.wait_le,
      ack_loop-ends fuel id,
      handle_loop-ends fuel id evt,
    )

    -- If the world holds finitely many failures, `process` returns to its caller, with a panic of
    -- the handler caught, and no entry is left published as in flight: fuel for two calls more
    -- than there are failures is enough.
    pub process-ends :
        (c : Codec) (fuel : ℕ) (m : Message) (s : Run W)
        → budget s.world + 1 < fuel
        → s.in_flight ≡ none
        → Returns (process rt k c fuel m s).0 × ((process rt k c fuel m s).1.in_flight ≡ none)
    unfolding process leave on_fatal
    process-ends c fuel m s h q = grind (arith, handle_loop-ends fuel m.id)

    ack_loop-nil :
        (fuel : ℕ) (id : String) (s : Run W)
        → IsCalm rt k
        → budget s.world < fuel
        → (ack_loop rt k fuel id s).0 ≡ exited none
    unfolding ack_loop call_ack pause
    ack_loop-nil zero id s q h = absurd (omega arith)
    ack_loop-nil (suc fuel) id s q h =
        grind (arith, b.ack_lt id s.world, b.wait_le, q.no_cancel, q.no_done, ack_loop-nil fuel id)

    handle_loop-nil :
        (fuel : ℕ) (id : String) (evt : Event) (backoff retries : ℕ) (s : Run W)
        → IsCalm rt k
        → budget s.world + 1 < fuel
        → (handle_loop rt k fuel id evt backoff retries s).0 ≡ exited none
    unfolding handle_loop call_handler pause on_fatal
    handle_loop-nil zero id evt backoff retries s q h = absurd (omega arith)
    handle_loop-nil (suc fuel) id evt backoff retries s q h = grind (
      arith,
      b.handler_le evt s.world,
      b.handler_lt evt s.world,
      b.wait_le,
      q.no_panic evt s.world,
      q.no_poison evt s.world,
      q.no_cancel,
      q.no_done,
      ack_loop-nil fuel id,
      handle_loop-nil fuel id evt,
    )

    pub process-delivers :
        (c : Codec) (fuel : ℕ) (m : Message) (s : Run W) (evt : Event)
        → IsCalm rt k
        → parse c m.id m.values ≡ ok evt
        → budget s.world + 1 < fuel
        → (process rt k c fuel m s).0 ≡ exited none
    unfolding process leave on_fatal
    process-delivers c fuel m s evt q p h = grind (arith, p, handle_loop-nil fuel m.id evt)
