-- ===== src/Tests/Courses.antt =====
-- Witnesses of the theorems on what a group owes to an entry, and on the removal of consumers.
use dasher.Common.{
  ℕ, zero, suc, String, ◌==◌, eq_iff, Bool, true, false, Option, none, some, List, [], ◌∷◌, ◌≡◌,
  ◌≢◌, ◌↔◌, inl, refl, arith, if◌then◌else◌,
}
use dasher.Common.Int.{pos}
use dasher.Consume.{Consumer}
use dasher.Consume.Group.{
  Redis, ConsumerInfo, reply, timed_out, gc_consumers, gc_each, is_dead, run,
}
use dasher.Consume.Group.Course.{Keeps, Course, begins, reads, sweeps, Course-owed}
use dasher.Consume.Group.Drain.Removal.{remove}
use dasher.Consume.Group.Owed.{Owes, IsSettled, run-IsSettled}
use dasher.Consume.Group.Removals.{Any, IsExpired, occurs}
use dasher.Consume.Group.Sweeps.{Drops, gc_consumers-pending_iff}
use dasher.Errors.{Error}
use dasher.Handler.{noop, fail_loud}
use dasher.Tests.{World, codec, runtime, consumer, redis, start, handle_in, ack_in}

-- The last entry of the stream is pending.
abbrev last_owed : World → Bool
last_owed w = occurs "1-2" w.own

occurs-remove :
    (j id : String) (ids : List String)
    → j ≢ id
    → occurs id ids ≡ true
    → occurs id (remove j ids) ≡ true
unfolding remove
occurs-remove j id [] other h = cc
occurs-remove j id (i ∷ ids) other h =
    ground (arith, eq_iff i j, eq_iff i id, occurs-remove j id ids)

ack_in-owed :
    (n : ℕ) (j : String) (w : World)
    → j ≢ "1-2"
    → last_owed w ≡ true
    → last_owed (ack_in n j w).1 ≡ true
unfolding ack_in
ack_in-owed zero j w other h = occurs-remove j "1-2" w.own other h
ack_in-owed (suc n) j w other h = h

handle_in-owed : (n : ℕ) (w : World) → last_owed w ≡ true → last_owed (handle_in n w).1 ≡ true
handle_in-owed zero w h = h
handle_in-owed (suc n) w h = h

policy-owed :
    (e : Error) (w : World)
    → last_owed w ≡ true
    → last_owed (consumer.policy consumer.stream e w).1 ≡ true
unfolding fail_loud
policy-owed e w h = h

consumer-Owes : Owes redis runtime consumer "1-2" last_owed
consumer-Owes = record {
  create = λ w h. h;
  pending = λ a w h. h;
  claim = λ ids w h. h;
  read = λ w h. h;
  ack = λ j w other h. ack_in-owed w.lost j w other h;
  handler = λ evt w h. handle_in-owed w.busy w h;
  policy = λ e w h. policy-owed e w h;
  wait = λ d w h. h;
}

run-IsSettled_example :
    IsSettled redis runtime consumer codec "1-2" last_owed consumer-Owes
      (run redis runtime consumer codec 2 1 9 start).1
run-IsSettled_example =
    run-IsSettled redis runtime consumer codec "1-2" last_owed consumer-Owes 2 1 9 start (inl refl)

-- One entry, by the consumer that it is pending for, if any.
abbrev Owner : Type 0
Owner = Option String

abbrev is_owner : Owner → String → Bool
is_owner none name = false
is_owner (some owner) name = owner == name

abbrev is_some : Owner → Bool
is_some none = false
is_some (some owner) = true

abbrev listed : List ConsumerInfo
listed =
    record { name = "old"; pending = 0; idle = pos 900 }
    ∷ record { name = "pod"; pending = 1; idle = pos 900 }
    ∷ []

abbrev moved_to : String → Owner → Owner
moved_to name none = none
moved_to name (some owner) = some name

abbrev without : String → Owner → Owner
without name none = none
without name (some owner) = if owner == name then none else some owner

abbrev commands : Redis Owner
commands = record {
  xgroup_create = λ w. (none, w);
  xpending = λ a w. (reply [], w);
  xclaim = λ name idle ids w. (reply [], moved_to name w);
  xreadgroup = λ name count block w. (timed_out, w);
  xinfo_consumers = λ w. (reply listed, w);
  xgroup_del_consumer = λ name w. (none, without name w);
  text_of = λ e. "";
}

abbrev named_consumer : String → Consumer (Unit {0}) Owner
named_consumer name = record {
  stream = "a.users";
  group = "a";
  name = name;
  handler = noop;
  inst = tt;
  policy = fail_loud;
  escalate_after = pos 10;
  block = pos 2;
  count = 10;
  reclaim_min_idle = pos 30;
  reclaim_interval = pos 5;
  consumer_gc_interval = pos 300;
  consumer_gc_timeout = pos 600;
  heartbeat_interval = pos 15;
  ack_fn = λ id w. (none, w);
  claim_fn = λ id w. (none, w);
}

abbrev entries_of : Owner → String → List String
entries_of w name = if is_owner w name then "1-0" ∷ [] else []

commands-Drops : Drops commands entries_of
commands-Drops = record { dropped = λ name other w. dropped name other w }
  where
    dropped :
        (name other : String) (w : Owner)
        → entries_of (without name w) other ≡ (if name == other then [] else entries_of w other)
    dropped name other none = ground arith
    dropped name other (some owner) =
        ground (arith, eq_iff owner name, eq_iff owner other, eq_iff name other)

gc_consumers-pending_iff_example :
    ((name : String)
      → entries_of (gc_consumers commands (named_consumer "peer") (some "pod")).1 name
        ≡ entries_of (some "pod") name)
    ↔ ((name : String)
        → Any (IsExpired commands (named_consumer "peer") name) listed
        → entries_of (some "pod") name ≡ [])
gc_consumers-pending_iff_example =
    gc_consumers-pending_iff commands (named_consumer "peer") entries_of commands-Drops listed
      (some "pod") refl

commands-Keeps : Keeps commands is_some is_owner
commands-Keeps = record {
  pending = λ a w h. h;
  claim = λ name min_idle ids w h. claims name w h;
  read = λ name count block w h. h;
  del = λ name w idle h. dels name w idle h;
  del_holds = λ name other w idle. del_holds name other w idle;
}
  where
    claims : (name : String) (w : Owner) → is_some w ≡ true → is_some (moved_to name w) ≡ true
    claims name none h = h
    claims name (some owner) h = refl

    dels :
        (name : String) (w : Owner)
        → is_owner w name ≡ false
        → is_some w ≡ true
        → is_some (without name w) ≡ true
    dels name none idle h = h
    dels name (some owner) idle h = rw idle refl

    del_holds :
        (name other : String) (w : Owner)
        → is_owner w other ≡ false
        → is_owner (without name w) other ≡ false
    del_holds name other none idle = refl
    del_holds name other (some owner) idle = ground (arith, idle)

abbrev swept : Owner
swept = gc_each commands (named_consumer "peer") listed (some "pod")

swept-Course : Course (Unit {0}) commands "1-0" is_some is_owner swept
unfolding is_dead
swept-Course =
    sweeps (named_consumer "peer") listed (reads (named_consumer "pod") (begins (some "pod") refl))
      (λ has. cc, (λ has none_left. omega (arith, none_left), tt))

Course-owed_example : is_some swept ≡ true
Course-owed_example =
    Course-owed (Unit {0}) commands "1-0" is_some is_owner commands-Keeps swept-Course
