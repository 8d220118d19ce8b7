-- ===== src/Consume/Group/Owed.antt =====
-- What a consumer owes to one entry of its stream: to keep it pending until its handler succeeds.
use dasher.Common.{
  ℕ, String, ◌==◌, eq_iff, Bool, true, false, not, ◌||◌, ◌&&◌, Option, none, some, List, ◌∷◌, any,
  ◌≡◌, ◌≢◌, ◌↔◌, ◌⊎◌, arith,
}
use dasher.Common.Int.{pos}
use dasher.Errors.{Error}
use dasher.Event.{Event, Codec}
use dasher.Handler.{returned}
use dasher.Consume.{
  Goroutine, spawned, Consumer, Runtime, Level, Deed, handled, ack_failed, retried, Run,
}
use dasher.Consume.Process.{Message, call_ack, call_handler, pause, on_fatal, process}
use dasher.Consume.Process.Keeps.{Steps, process-keeps}
use dasher.Consume.Group.{Redis, PendingArgs, at_world, run}
use dasher.Consume.Group.Keeps.{Stable, run-keeps}

-- The handler succeeded while the entry was published as in flight.
abbrev pub is_success : String → Deed → Bool
is_success id (handled (some j) (returned none)) = j == id
is_success id _ = false

abbrev pub served : String → List Deed → Bool
served id ds = any (is_success id) ds

-- `owed` holds of a world while the group has not delivered the entry `id`, or has it pending for one
-- of its consumers. The laws say that nothing ends this but the acknowledgement of that entry. As
-- the world is whatever surrounds the consumer, a command may come with what others do before it.
pub record Owes {I W : Type 0} (redis : Redis W) (rt : Runtime W) (k : Consumer I W) (id : String)
    (owed : W → Bool) : Type 0 where
  pub create : (w : W) → owed w ≡ true → owed (redis.xgroup_create w).1 ≡ true
  pub pending : (a : PendingArgs) (w : W) → owed w ≡ true → owed (redis.xpending a w).1 ≡ true
  pub claim :
      (ids : List String) (w : W)
      → owed w ≡ true
      → owed (redis.xclaim k.name (pos 0) ids w).1 ≡ true
  pub read : (w : W) → owed w ≡ true → owed (redis.xreadgroup k.name k.count k.block w).1 ≡ true
  pub ack : (j : String) (w : W) → j ≢ id → owed w ≡ true → owed (k.ack_fn j w).1 ≡ true
  pub handler : (evt : Event) (w : W) → owed w ≡ true → owed (k.handler k.inst evt w).1 ≡ true
  pub policy : (e : Error) (w : W) → owed w ≡ true → owed (k.policy k.stream e w).1 ≡ true
  pub wait : (d : ℕ) (w : W) → owed w ≡ true → owed (rt.wait d w).1 ≡ true

module _ {I W : Type 0} (redis : Redis W) (rt : Runtime W) (k : Consumer I W) (c : Codec)
    (id : String) (owed : W → Bool) (owes : Owes redis rt k id owed) where
  settled : Run W → Bool
  settled s = owed s.world || served id s.deeds

  -- An acknowledgement of `j` does no harm.
  may_ack : String → Run W → Bool
  unfolding settled
  may_ack j s = settled s && (not (j == id) || served id s.deeds)

  settled-ack_failed :
      (j l : String) (s : Run W)
      → may_ack j s ≡ true
      → may_ack j (record s { deeds = ack_failed l ∷ s.deeds }) ≡ true
  unfolding may_ack
  settled-ack_failed j l s h = h

  settled-retried :
      (l : Level) (n b : ℕ) (s : Run W)
      → settled s ≡ true
      → settled (record s { deeds = retried l n b ∷ s.deeds }) ≡ true
  unfolding settled
  settled-retried l n b s h = h

  settled-spawned :
      (g : Goroutine) (s : Run W)
      → settled s ≡ true
      → settled (record s { deeds = spawned g ∷ s.deeds }) ≡ true
  unfolding settled
  settled-spawned g s h = h

  settled_of-may_ack : (j : String) (s : Run W) → may_ack j s ≡ true → settled s ≡ true
  unfolding may_ack
  settled_of-may_ack j s h = ground (arith, h)

  may_ack-call_ack :
      (j : String) (s : Run W) → may_ack j s ≡ true → may_ack j (call_ack rt k j s).1 ≡ true
  unfolding may_ack call_ack
  may_ack-call_ack j s h = ground (arith, h, eq_iff j id, owes.ack j s.world)

  may_ack-pause :
      (j : String) (d : ℕ) (s : Run W) → may_ack j s ≡ true → may_ack j (pause rt k d s).1 ≡ true
  unfolding may_ack pause
  may_ack-pause j d s h = ground (arith, h, owes.wait d s.world)

  settled-pause : (d : ℕ) (s : Run W) → settled s ≡ true → settled (pause rt k d s).1 ≡ true
  unfolding settled pause
  settled-pause d s h = ground (arith, h, owes.wait d s.world)

  settled-on_fatal :
      (e : Error) (s : Run W) → settled s ≡ true → settled (on_fatal rt k e s).1 ≡ true
  unfolding settled on_fatal
  settled-on_fatal e s h = ground (arith, h, owes.policy e s.world)

  settled-call_handler :
      (evt : Event) (s : Run W) → settled s ≡ true → settled (call_handler rt k evt s).1 ≡ true
  unfolding settled call_handler
  settled-call_handler evt s h = ground (arith, h, owes.handler evt s.world)

  -- A successful handler serves the entry in flight.
  may_ack-call_handler :
      (j : String) (evt : Event) (s : Run W)
      → s.in_flight ≡ some j
      → settled s ≡ true
      → (call_handler rt k evt s).0 ≡ returned none
      → may_ack j (call_handler rt k evt s).1 ≡ true
  unfolding may_ack call_handler
  may_ack-call_handler j evt s f h done =
      ground (arith, f, h, done, eq_iff j id, owes.handler evt s.world)

  settled-in_flight :
      (o : Option String) (s : Run W)
      → settled s ≡ true
      → settled (record s { in_flight = o }) ≡ true
  unfolding settled
  settled-in_flight o s h = h

  settled-Steps : Steps rt k settled may_ack
  settled-Steps = record {
    of_success = settled_of-may_ack;
    ack = may_ack-call_ack;
    failed = settled-ack_failed;
    ack_pause = may_ack-pause;
    handler = settled-call_handler;
    success = may_ack-call_handler;
    retry = settled-retried;
    wait = settled-pause;
    fatal = settled-on_fatal;
    flight = settled-in_flight;
  }

  settled-at_world :
      (s : Run W) (w : W)
      → (owed s.world ≡ true → owed w ≡ true)
      → settled s ≡ true
      → settled (at_world w s) ≡ true
  unfolding settled
  settled-at_world s w f h = ground (arith, h, f)

  settled-Stable : Stable redis rt k c (λ s. settled s ≡ true)
  settled-Stable = record {
    create = λ s. settled-at_world s _ (owes.create s.world);
    pending = λ a s. settled-at_world s _ (owes.pending a s.world);
    claim = λ ids s. settled-at_world s _ (owes.claim ids s.world);
    read = λ s. settled-at_world s _ (owes.read s.world);
    spawn = settled-spawned;
    entry = process-keeps rt k settled may_ack settled-Steps c;
  }

  -- The group still owes the entry, or its handler has succeeded for it.
  abbrev pub IsSettled : Run W → Type 0
  IsSettled s = (owed s.world ≡ true) ⊎ (served id s.deeds ≡ true)

  settled_iff : (s : Run W) → (settled s ≡ true) ↔ IsSettled s
  unfolding settled
  settled_iff s = (λ h. ground (arith, h), λ h. ground (arith, h))

  pub process-IsSettled :
      (fuel : ℕ) (m : Message) (s : Run W) → IsSettled s → IsSettled (process rt k c fuel m s).1
  process-IsSettled fuel m s h =
      (settled_iff _).0
        (process-keeps rt k settled may_ack settled-Steps c fuel m s ((settled_iff s).1 h))

  -- No entry is lost by a consumer: however long it runs, and whatever Redis, the handler and the
  -- policy do, panics, poison and failed commands included, an entry that the group owes when it
  -- starts is still owed, to be delivered or pending, or the handler has succeeded while that entry
  -- was published as in flight; if nothing but an `XACK` of it ends what is owed.
  pub run-IsSettled :
      (fuel pages rounds : ℕ) (s : Run W)
      → IsSettled s
      → IsSettled (run redis rt k c fuel pages rounds s).1
  run-IsSettled fuel pages rounds s h =
      (settled_iff _).0
        (run-keeps redis rt k c settled-Stable fuel pages rounds s ((settled_iff s).1 h))
