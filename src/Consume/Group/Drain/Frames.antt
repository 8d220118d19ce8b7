-- ===== src/Consume/Group/Drain/Frames.antt =====
-- What the handling of one entry leaves of the pending entries and of the failures to come.
use dasher.Common.{
  ℕ, zero, suc, ◌≤◌, String, none, some, List, [], ◌∷◌, map, length, ◌≡◌, refl, ap, arith, take,
  All, inl, inr, ◌⊎◌,
}
use dasher.Common.Int.{pos}
use dasher.Errors.{Error, wrapped}
use dasher.Event.{Event, Codec}
use dasher.Event.Parse.{parse, ok}
use dasher.Consume.{Consumer, Runtime, Run, Exit, exited, thrown, out_of_fuel}
use dasher.Consume.Process.{
  Message, call_ack, call_handler, pause, on_fatal, ack_loop, handle_loop, leave, process,
}
use dasher.Consume.Process.Acks.{IsLoud}
use dasher.Consume.Process.Ends.{HasBudget, IsCalm}
use dasher.Consume.Group.{
  Redis, Reply, reply, refused, Pending, PendingArgs, and_then, at_world, when_ok,
}
use dasher.Consume.Group.Drain.Removal.{remove}

-- `own` lists the ids of the entries that are pending for this consumer, in the order of the
-- stream. The laws say what Redis documents of the replies to the commands while no other client
-- touches these entries and none is trimmed from the stream, and that nothing else changes the list;
-- a command may be refused, and an
-- `XACK` that ends with an error may have been carried out or not.
pub record TracksOwn {I W : Type 0} (redis : Redis W) (rt : Runtime W) (k : Consumer I W)
    (own : W → List String) : Type 0 where
  pub xpending_same : (a : PendingArgs) (w : W) → own (redis.xpending a w).1 ≡ own w
  pub xpending_page :
      (w : W) (xps : List Pending)
      → (redis.xpending
          (record { start = "-"; count = k.count; consumer = some k.name; idle = pos 0 })
          w).0
        ≡ reply xps
      → map (λ p. p.id) xps ≡ take k.count (own w)
  pub xclaim_same : (ids : List String) (w : W) → own (redis.xclaim k.name (pos 0) ids w).1 ≡ own w
  pub xclaim_page :
      (n : ℕ) (w : W) (ms : List Message)
      → (redis.xclaim k.name (pos 0) (take n (own w)) w).0 ≡ reply ms
      → map (λ m. m.id) ms ≡ take n (own w)
  pub ack_done :
      (id : String) (w : W) → (k.ack_fn id w).0 ≡ none → own (k.ack_fn id w).1 ≡ remove id (own w)
  pub ack_failed :
      (id : String) (w : W) (e : Error)
      → (k.ack_fn id w).0 ≡ some e
      → remove id (own (k.ack_fn id w).1) ≡ remove id (own w)
  pub handler_same : (evt : Event) (w : W) → own (k.handler k.inst evt w).1 ≡ own w
  pub wait_same : (d : ℕ) (w : W) → own (rt.wait d w).1 ≡ own w

module _ {I W : Type 0} (redis : Redis W) (rt : Runtime W) (k : Consumer I W) (c : Codec)
    (own : W → List String) (t : TracksOwn redis rt k own) where
  pub ack_loop-own :
      (fuel : ℕ) (id : String) (s : Run W)
      → (ack_loop rt k fuel id s).0 ≡ exited none
      → own (ack_loop rt k fuel id s).1.world ≡ remove id (own s.world)
  unfolding ack_loop call_ack pause
  ack_loop-own zero id s h = cc
  ack_loop-own (suc fuel) id s h =
      grind
        (arith, t.ack_done id s.world, t.ack_failed id s.world, t.wait_same, ack_loop-own fuel id)

  pub handle_loop-own :
      IsLoud k.policy
      → (fuel : ℕ) (id : String) (evt : Event) (backoff retries : ℕ) (s : Run W)
      → (handle_loop rt k fuel id evt backoff retries s).0 ≡ exited none
      → own (handle_loop rt k fuel id evt backoff retries s).1.world ≡ remove id (own s.world)
  unfolding handle_loop call_handler pause on_fatal
  handle_loop-own loud zero id evt backoff retries s h = cc
  handle_loop-own loud (suc fuel) id evt backoff retries s h = grind (
    arith,
    loud,
    t.handler_same,
    t.wait_same,
    ack_loop-own fuel id,
    handle_loop-own loud fuel id evt,
  )

  pub process-own :
      IsLoud k.policy
      → (fuel : ℕ) (m : Message) (s : Run W) → (process rt k c fuel m s).0 ≡ exited none
      → own (process rt k c fuel m s).1.world ≡ remove m.id (own s.world)
  unfolding process leave on_fatal
  process-own loud fuel m s h = grind (arith, loud, handle_loop-own loud fuel m.id)

-- The world in which `selfReclaim` can finish: it holds finitely many failures, counted by
-- `budget`, nothing cancels the context, and every claimed entry is well formed.
pub record IsHealthy {I W : Type 0} (redis : Redis W) (rt : Runtime W) (k : Consumer I W)
    (c : Codec) (budget : W → ℕ) : Type 0 where
  pub calm : IsCalm rt k
  pub bounded : HasBudget rt k budget
  pub ack_le : (id : String) (w : W) → budget (k.ack_fn id w).1 ≤ budget w
  pub xpending_le : (a : PendingArgs) (w : W) → budget (redis.xpending a w).1 ≤ budget w
  pub xclaim_le :
      (ids : List String) (w : W) → budget (redis.xclaim k.name (pos 0) ids w).1 ≤ budget w
  pub well_formed :
      (ids : List String) (w : W) (ms : List Message)
      → (redis.xclaim k.name (pos 0) ids w).0 ≡ reply ms
      → All (λ m. (evt : Event) × (parse c m.id m.values ≡ ok evt)) ms

pub when_ok-eq :
    {W A : Type 0} (what : String) (r : Reply A × W) (s : Run W) (f : A → Run W → Exit × Run W)
    (a : A)
    → r.0 ≡ reply a
    → when_ok what r s f ≡ f a (at_world r.1 s)
when_ok-eq what (reply b, w) s f a e = ap (λ x. f x (at_world w s)) (reply-injective b a e)
  where
    value : {A : Type 0} → A → Reply A → A
    value d (reply x) = x
    value d (refused err) = d

    reply-injective : {A : Type 0} (x y : A) → reply x ≡ reply y → x ≡ y
    reply-injective x y q = ap (value x) q
when_ok-eq what (refused err, w) s f a e = cc

pub when_ok-refused :
    {W A : Type 0} (what : String) (r : Reply A × W) (s : Run W) (f : A → Run W → Exit × Run W)
    (e : Error)
    → r.0 ≡ refused e
    → (when_ok what r s f).0 ≡ exited (some (wrapped what e))
when_ok-refused what (reply b, w) s f e h = cc
when_ok-refused what (refused e', w) s f e h = ap (λ x. exited (some (wrapped what (error_of x)))) h
  where
    error_of : {A : Type 0} → Reply A → Error
    error_of (reply x) = e
    error_of (refused err) = err

pub Reply-cases :
    {A : Type 0} (r : Reply A) → ((a : A) × (r ≡ reply a)) ⊎ ((e : Error) × (r ≡ refused e))
Reply-cases (reply a) = inl (a, refl)
Reply-cases (refused e) = inr (e, refl)

pub and_then-eq :
    {W : Type 0} (r : Exit × Run W) (f : Run W → Exit × Run W)
    → r.0 ≡ exited none
    → and_then r f ≡ f r.1
and_then-eq (exited none, s) f e = refl
and_then-eq (exited (some err), s) f e = cc
and_then-eq (thrown v, s) f e = cc
and_then-eq (out_of_fuel, s) f e = cc

pub length-ids : (xps : List Pending) → length (map (λ p. p.id) xps) ≡ length xps
length-ids [] = refl
length-ids (xp ∷ xps) = ap suc (length-ids xps)

module _ {I W : Type 0} (redis : Redis W) (rt : Runtime W) (k : Consumer I W) (c : Codec)
    (budget : W → ℕ) (h : IsHealthy redis rt k c budget) where
  ack_loop-budget :
      (fuel : ℕ) (id : String) (s : Run W)
      → (ack_loop rt k fuel id s).0 ≡ exited none
      → budget (ack_loop rt k fuel id s).1.world ≤ budget s.world
  unfolding ack_loop call_ack pause
  ack_loop-budget zero id s e = cc
  ack_loop-budget (suc fuel) id s e =
      grind (arith, h.ack_le id s.world, h.bounded.wait_le, ack_loop-budget fuel id)

  handle_loop-budget :
      IsLoud k.policy
      → (fuel : ℕ) (id : String) (evt : Event) (backoff retries : ℕ) (s : Run W)
      → (handle_loop rt k fuel id evt backoff retries s).0 ≡ exited none
      → budget (handle_loop rt k fuel id evt backoff retries s).1.world ≤ budget s.world
  unfolding handle_loop call_handler pause on_fatal
  handle_loop-budget loud zero id evt backoff retries s e = cc
  handle_loop-budget loud (suc fuel) id evt backoff retries s e = grind (
    arith,
    loud,
    h.bounded.handler_le evt s.world,
    h.bounded.wait_le,
    ack_loop-budget fuel id,
    handle_loop-budget loud fuel id evt,
  )

  pub process-budget :
      IsLoud k.policy
      → (fuel : ℕ) (m : Message) (s : Run W) → (process rt k c fuel m s).0 ≡ exited none
      → budget (process rt k c fuel m s).1.world ≤ budget s.world
  unfolding process leave on_fatal
  process-budget loud fuel m s e = grind (arith, loud, handle_loop-budget loud fuel m.id)
