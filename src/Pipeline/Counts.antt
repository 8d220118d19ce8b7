-- ===== src/Pipeline/Counts.antt =====
-- How many events a consumer publishes, whose handler `buildHandler` has composed.
use dasher.Common.{ℕ, suc, ◌+◌, String, Bool, none, List, [], ◌∷◌, ◌≡◌, if◌then◌else◌, leb, ◌≤◌}
use dasher.Common.Dict.{Dict}
use dasher.Common.Int.{pos}
use dasher.Consume.{Consumer, Runtime, Deed, handled, Run}
use dasher.Consume.Group.{Redis, PendingArgs}
use dasher.Errors.{Error}
use dasher.Event.{Event}
use dasher.Handler.{Handler, Emitter, returned}
use dasher.Lookup.{Lookup}
use dasher.Pipeline.Emits.{succeeded}

-- The successful calls of the handler among the deeds.
abbrev pub successes : List Deed → ℕ
successes [] = 0
successes (handled p (returned none) ∷ ds) = suc (successes ds)
successes (_ ∷ ds) = successes ds

-- `published` counts the events that the producer has had published: a call of `Emit` that returns
-- nil adds one or more (the client may send a command again), and one that returns an error may have
-- added some (the reply may be lost).
pub record CountsEmits {W : Type 0} (emit : Emitter W) (published : W → ℕ) : Type 0 where
  pub emit_done :
      (stream : String) (evt : Event) (w : W)
      → (emit stream evt w).0 ≡ none
      → published w + 1 ≤ published (emit stream evt w).1
  pub emit_any :
      (stream : String) (evt : Event) (w : W) → published w ≤ published (emit stream evt w).1

module _ {I W : Type 0} (redis : Redis W) (rt : Runtime W) (k : Consumer I W)
    (published : W → ℕ) where
  -- The commands of the consumer, its waits and its policy take back nothing that was published.
  pub record Grows : Type 0 where
    pub create : (w : W) → published w ≤ published (redis.xgroup_create w).1
    pub pending : (a : PendingArgs) (w : W) → published w ≤ published (redis.xpending a w).1
    pub claim :
        (ids : List String) (w : W) → published w ≤ published (redis.xclaim k.name (pos 0) ids w).1
    pub read : (w : W) → published w ≤ published (redis.xreadgroup k.name k.count k.block w).1
    pub ack : (j : String) (w : W) → published w ≤ published (k.ack_fn j w).1
    pub policy : (e : Error) (w : W) → published w ≤ published (k.policy k.stream e w).1
    pub wait : (d : ℕ) (w : W) → published w ≤ published (rt.wait d w).1

  module _ (grows : Grows)
      (handler : (evt : Event) (w : W)
        → published w + (if succeeded (k.handler k.inst evt w).0 then 1 else 0)
          ≤ published (k.handler k.inst evt w).1)
      (a b : ℕ) where
    -- At least as many events have been published as handlers have succeeded, from `a` and `b` on.
    covered : Run W → Bool
    covered s = leb (successes s.deeds + b) (published s.world + a)
