-- ===== src/Consume/Process/Acks.antt =====
-- Acknowledgement in `process`: against the success of the handler, and against what is returned.
use dasher.Common.{
  ℕ, ◌==◌, if◌then◌else◌, zero, suc, ◌+◌, String, none, some, List, [], ◌∷◌, ◌≡◌, ◌≢◌, arith,
}
use dasher.Errors.{Error}
use dasher.Event.{Event, Codec}
use dasher.Handler.{returned, panicked, Policy}
use dasher.Consume.{
  spawned, Consumer, Runtime, Deed, handled, acked, retried, ack_failed, slept, fatal, Run, Exit,
  exited,
}
use dasher.Consume.Process.{
  Message, call_ack, call_handler, pause, on_fatal, ack_loop, handle_loop, leave, process,
}

-- The successful calls of `XACK` for an entry among the deeds.
abbrev pub acks : String → List Deed → ℕ
acks id [] = 0
acks id (acked j none ∷ ds) = if j == id then suc (acks id ds) else acks id ds
acks id (_ ∷ ds) = acks id ds

-- One for a return of nil, none for all other exits.
abbrev pub returns_nil : Exit → ℕ
returns_nil (exited none) = 1
returns_nil _ = 0

-- The policy hands every fatal error back, as FailLoud does.
abbrev pub IsLoud : {W : Type 0} → Policy W → Type 0
IsLoud {W} p = (stream : String) (err : Error) (w : W) → (p stream err w).0 ≢ none

-- The last call of the handler succeeded, with the entry published as in flight.
abbrev pub Succeeded : String → List Deed → Type 0
Succeeded id [] = ⊥
Succeeded id (handled p (returned none) ∷ ds) = p ≡ some id
Succeeded id (handled p (returned (some e)) ∷ ds) = ⊥
Succeeded id (handled p (panicked v) ∷ ds) = ⊥
Succeeded id (fatal e ∷ ds) = ⊥
Succeeded id (retried l n b ∷ ds) = Succeeded id ds
Succeeded id (acked j e ∷ ds) = Succeeded id ds
Succeeded id (ack_failed j ∷ ds) = Succeeded id ds
Succeeded id (slept d ∷ ds) = Succeeded id ds
Succeeded id (spawned g ∷ ds) = Succeeded id ds

-- Every call of `XACK`, also one that failed, stands after such a success.
abbrev pub AcksFollowSuccess : List Deed → Type 0
AcksFollowSuccess [] = Unit
AcksFollowSuccess (acked id e ∷ ds) = Succeeded id ds × AcksFollowSuccess ds
AcksFollowSuccess (_ ∷ ds) = AcksFollowSuccess ds

module _ {I W : Type 0} (rt : Runtime W) (k : Consumer I W) where
  ack_loop-acks :
      (fuel : ℕ) (id j : String) (s : Run W)
      → acks j (ack_loop rt k fuel id s).1.deeds
        ≡ acks j s.deeds + (if id == j then returns_nil (ack_loop rt k fuel id s).0 else 0)
  unfolding ack_loop call_ack pause
  ack_loop-acks zero id j s = ground arith
  ack_loop-acks (suc fuel) id j s = grind (arith, ack_loop-acks fuel id j)

  ack_loop-AcksFollowSuccess :
      (fuel : ℕ) (id : String) (s : Run W)
      → AcksFollowSuccess s.deeds
      → Succeeded id s.deeds
      → AcksFollowSuccess (ack_loop rt k fuel id s).1.deeds
  unfolding ack_loop call_ack pause
  ack_loop-AcksFollowSuccess zero id s h p = h
  ack_loop-AcksFollowSuccess (suc fuel) id s h p = grind (arith, ack_loop-AcksFollowSuccess fuel id)

  handle_loop-AcksFollowSuccess :
      (fuel : ℕ) (id : String) (evt : Event) (backoff retries : ℕ) (s : Run W)
      → AcksFollowSuccess s.deeds
      → s.in_flight ≡ some id
      → AcksFollowSuccess (handle_loop rt k fuel id evt backoff retries s).1.deeds
  unfolding handle_loop call_handler pause on_fatal
  handle_loop-AcksFollowSuccess zero id evt backoff retries s h p = h
  handle_loop-AcksFollowSuccess (suc fuel) id evt backoff retries s h p =
      grind (arith, ack_loop-AcksFollowSuccess fuel id, handle_loop-AcksFollowSuccess fuel id evt)

  -- If every `XACK` so far, successful or not, came after a successful call of the handler, made
  -- while that entry was published as in flight and with no call of the handler since, then so
  -- it is after `process`, whatever the handler, Redis and the policy do.
  pub process-AcksFollowSuccess :
      (c : Codec) (fuel : ℕ) (m : Message) (s : Run W)
      → AcksFollowSuccess s.deeds
      → AcksFollowSuccess (process rt k c fuel m s).1.deeds
  unfolding process leave on_fatal
  process-AcksFollowSuccess c fuel m s h = grind (arith, handle_loop-AcksFollowSuccess fuel m.id)

  module _ (loud : IsLoud k.policy) where
    handle_loop-acks :
        (fuel : ℕ) (id j : String) (evt : Event) (backoff retries : ℕ) (s : Run W)
        → acks j (handle_loop rt k fuel id evt backoff retries s).1.deeds
          ≡ acks j s.deeds
            + (if id == j
                then returns_nil (handle_loop rt k fuel id evt backoff retries s).0
                else 0)
    unfolding handle_loop call_handler pause on_fatal
    handle_loop-acks zero id j evt backoff retries s = ground arith
    handle_loop-acks (suc fuel) id j evt backoff retries s =
        grind (arith, loud, ack_loop-acks fuel id j, handle_loop-acks fuel id j evt)

    -- Under a policy that hands fatal errors back, `process` has one `XACK` of the entry answered
    -- without an error if it returns nil, and none if it does not; and none of any other entry.
    pub process-acks :
        (c : Codec) (fuel : ℕ) (m : Message) (j : String) (s : Run W)
        → acks j (process rt k c fuel m s).1.deeds
          ≡ acks j s.deeds + (if m.id == j then returns_nil (process rt k c fuel m s).0 else 0)
    unfolding process leave on_fatal
    process-acks c fuel m j s = grind (arith, loud, handle_loop-acks fuel m.id j)
