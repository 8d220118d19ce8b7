-- ===== src/Tests/Consumers.antt =====
-- Witnesses of the theorems on the consumer.
use dasher.Common.{
  ℕ, zero, suc, ◌+◌, ◌≤◌, ◌<◌, String, none, some, List, [], ◌∷◌, map, ◌≡◌, ◌≢◌, refl, arith, ap,
  false, All, take, ◌==◌, ◌⊎◌, sym, ◌∙◌, if◌then◌else◌,
}
use dasher.Errors.{Error, is_poison}
use dasher.Event.{Event}
use dasher.Event.Parse.{parse, ok, req_str, decode_json, read_time, optional, source_of}
use dasher.Common.Dict.{lookup}
use dasher.Handler.{fail_loud, returned, panicked}
use mathlib.Core.Path.{subst}
use dasher.Consume.{exited}
use dasher.Consume.Process.{process, Message}
use dasher.Consume.Process.Acks.{
  acks, returns_nil, IsLoud, AcksFollowSuccess, process-AcksFollowSuccess, process-acks,
}
use dasher.Consume.Process.Ends.{HasBudget, IsCalm, Returns, process-ends}
use dasher.Consume.Group.{run, self_reclaim, Reply, reply, refused, Pending}
use dasher.Consume.Group.Returns.{run-ne-nil}
use dasher.Consume.Group.Drain.{Drained, Refused, self_reclaim-drains}
use dasher.Consume.Group.Drain.Frames.{TracksOwn, IsHealthy}
use dasher.Consume.Group.Drain.Removal.{remove}
use dasher.Tests.{
  codec, fields, event, message, World, handle_in, ack_in, runtime, consumer, pending_of, redis,
  start,
}

abbrev failures : World → ℕ
failures w = w.busy + w.lost

consumer-IsLoud : IsLoud consumer.policy
unfolding fail_loud
consumer-IsLoud stream err w = cc

handle_in-le : (n : ℕ) (w : World) → n ≤ w.busy → failures (handle_in n w).1 ≤ failures w
handle_in-le zero w h = omega arith
handle_in-le (suc n) w h = omega arith

handle_in-lt :
    (n : ℕ) (w : World) (e : Error)
    → n ≤ w.busy
    → (handle_in n w).0 ≡ returned (some e)
    → failures (handle_in n w).1 < failures w
handle_in-lt zero w e h r = cc
handle_in-lt (suc n) w e h r = omega arith

handle_in-calm :
    (n : ℕ) (w : World)
    → ((v : String) → (handle_in n w).0 ≢ panicked v)
      × ((e : Error) → (handle_in n w).0 ≡ returned (some e) → is_poison e ≡ false)
unfolding is_poison
handle_in-calm zero w = (λ v r. cc, λ e r. cc)
handle_in-calm (suc n) w = (λ v r. cc, λ e r. ground (arith, r))

handle_in-own : (n : ℕ) (w : World) → (handle_in n w).1.own ≡ w.own
handle_in-own zero w = refl
handle_in-own (suc n) w = refl

ack_in-lt :
    (n : ℕ) (id : String) (w : World) (e : Error)
    → n ≤ w.lost
    → (ack_in n id w).0 ≡ some e
    → failures (ack_in n id w).1 < failures w
unfolding ack_in
ack_in-lt zero id w e h r = cc
ack_in-lt (suc n) id w e h r = omega arith

ack_in-le : (n : ℕ) (id : String) (w : World) → n ≤ w.lost → failures (ack_in n id w).1 ≤ failures w
unfolding ack_in
ack_in-le zero id w h = omega arith
ack_in-le (suc n) id w h = omega arith

ack_in-own :
    (n : ℕ) (id : String) (w : World)
    → ((ack_in n id w).0 ≡ none → (ack_in n id w).1.own ≡ remove id w.own)
      × ((e : Error) → (ack_in n id w).0 ≡ some e → (ack_in n id w).1.own ≡ w.own)
unfolding ack_in
ack_in-own zero id w = (λ r. refl, λ e r. cc)
ack_in-own (suc n) id w = (λ r. cc, λ e r. refl)

consumer-HasBudget : HasBudget runtime consumer failures
consumer-HasBudget = record {
  handler_le = λ evt w. handle_in-le w.busy w (omega arith);
  handler_lt = λ evt w e r. handle_in-lt w.busy w e (omega arith) r;
  ack_lt = λ id w e r. ack_in-lt w.lost id w e (omega arith) r;
  wait_le = λ d w. omega arith;
}

consumer-IsCalm : IsCalm runtime consumer
consumer-IsCalm = record {
  no_panic = λ evt w v. (handle_in-calm w.busy w).0 v;
  no_poison = λ evt w e r. (handle_in-calm w.busy w).1 e r;
  no_cancel = λ w. refl;
  no_done = λ d w. refl;
}

message-parse : (id : String) → parse codec id fields ≡ ok (event id)
unfolding parse req_str decode_json read_time optional source_of lookup
message-parse id = refl

map-pending_of : (ids : List String) → map (λ p. p.id) (pending_of ids) ≡ ids
map-pending_of [] = refl
map-pending_of (id ∷ ids) = ap (◌∷◌ id) (map-pending_of ids)

map-message : (ids : List String) → map (λ m. m.id) (map message ids) ≡ ids
map-message [] = refl
map-message (id ∷ ids) = ap (◌∷◌ id) (map-message ids)

message-All :
    (ids : List String)
    → All (λ m. (evt : Event) × (parse codec m.id m.values ≡ ok evt)) (map message ids)
message-All [] = tt
message-All (id ∷ ids) = ((event id, message-parse id), message-All ids)

claimed : Reply (List Message) → List Message
claimed (reply ms) = ms
claimed (refused e) = []

listed : Reply (List Pending) → List Pending
listed (reply xps) = xps
listed (refused e) = []

own-TracksOwn : TracksOwn redis runtime consumer (λ w. w.own)
unfolding listed claimed
own-TracksOwn = record {
  xpending_same = λ a w. refl;
  xpending_page =
      λ w xps r. sym (ap (λ x. map (λ p. p.id) (listed x)) r) ∙ map-pending_of (take 2 w.own);
  xclaim_same = λ ids w. refl;
  xclaim_page =
      λ n w ms r. sym (ap (λ x. map (λ m. m.id) (claimed x)) r) ∙ map-message (take n w.own);
  ack_done = λ id w r. (ack_in-own w.lost id w).0 r;
  ack_failed = λ id w e r. ap (remove id) ((ack_in-own w.lost id w).1 e r);
  handler_same = λ evt w. handle_in-own w.busy w;
  wait_same = λ d w. refl;
}

redis-IsHealthy : IsHealthy redis runtime consumer codec failures
unfolding claimed
redis-IsHealthy = record {
  calm = consumer-IsCalm;
  bounded = consumer-HasBudget;
  ack_le = λ id w. ack_in-le w.lost id w (omega arith);
  xpending_le = λ a w. omega arith;
  xclaim_le = λ ids w. omega arith;
  well_formed = λ ids w ms r. subst well_formed (ap claimed r) (message-All ids);
}
  where
    well_formed : List Message → Type 0
    well_formed = All (λ m. (evt : Event) × (parse codec m.id m.values ≡ ok evt))

process-AcksFollowSuccess_example :
    AcksFollowSuccess (process runtime consumer codec 9 (message "1-0") start).1.deeds
process-AcksFollowSuccess_example =
    process-AcksFollowSuccess runtime consumer codec 9 (message "1-0") start tt

process-acks_example :
    acks "1-0" (process runtime consumer codec 9 (message "1-0") start).1.deeds
    ≡ 0
      + (if "1-0" == "1-0"
          then returns_nil (process runtime consumer codec 9 (message "1-0") start).0
          else 0)
process-acks_example =
    process-acks runtime consumer consumer-IsLoud codec 9 (message "1-0") "1-0" start

process-ends_example :
    Returns (process runtime consumer codec 9 (message "1-0") start).0
    × ((process runtime consumer codec 9 (message "1-0") start).1.in_flight ≡ none)
process-ends_example =
    process-ends runtime consumer failures consumer-HasBudget codec 9 (message "1-0") start
      (omega arith) refl

self_reclaim-drains_example :
    Drained redis consumer (λ w. w.own) (self_reclaim redis runtime consumer codec 4 9 start)
    ⊎ Refused redis consumer (λ w. w.own) (self_reclaim redis runtime consumer codec 4 9 start)
self_reclaim-drains_example =
    self_reclaim-drains redis runtime consumer codec failures redis-IsHealthy (λ w. w.own)
      own-TracksOwn consumer-IsLoud 4 9 start (omega arith) (omega arith) (omega arith)

run-ne-nil_example : (run redis runtime consumer codec 3 4 9 start).0 ≢ exited none
run-ne-nil_example = run-ne-nil redis runtime consumer codec 3 4 9 start
