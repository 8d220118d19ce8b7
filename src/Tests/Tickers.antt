-- ===== src/Tests/Tickers.antt =====
-- The witness of the theorem on the background goroutines.
use dasher.Common.{
  ℕ, zero, suc, String, Bool, true, false, ◌≢◌, sym, ap, ◌==◌, ◌<◌, none, some, List, [], ◌∷◌, ◌≡◌,
  refl, arith, if◌then◌else◌,
}
use dasher.Common.Int.{pos, leb_ℤ}
use dasher.Consume.{Consumer, Runtime}
use dasher.Consume.Group.{Redis, Pending, PendingArgs, Reply, reply, refused, timed_out, cursor}
use dasher.Consume.Group.Loops.{
  Wake, ticked, ctx_done, Ticks, reclaim_loop, consumer_gc_loop, heartbeat_loop,
}
use dasher.Consume.Group.Loops.Pages.{Advances}
use dasher.Consume.Group.Loops.Stops.{Counts, Spends, StopsAfter, loops-StopsAfter}
use dasher.Errors.{plain}
use dasher.Handler.{noop, fail_loud}

-- The world is the number of ticks that are left.
abbrev next : ℕ → Wake × ℕ
next zero = (ctx_done, zero)
next (suc n) = (ticked, n)

abbrev ticks : Ticks ℕ
ticks = record {
  new_ticker = λ d. if leb_ℤ d (pos 0) then some "non-positive interval" else none;
  next = next;
  in_flight = λ w. some "1-0";
}

-- One entry is pending, for a peer.
abbrev first_page : PendingArgs → Reply (List Pending)
first_page a =
    reply
      (if a.start == "-" then record { id = "1-0"; consumer = "peer"; idle = pos 40 } ∷ [] else [])

abbrev commands : Redis ℕ
commands = record {
  xgroup_create = λ w. (none, w);
  xpending = λ a w. (first_page a, w);
  xclaim = λ name idle ids w. (reply [], w);
  xreadgroup = λ name count block w. (timed_out, w);
  xinfo_consumers = λ w. (reply [], w);
  xgroup_del_consumer = λ name w. (none, w);
  text_of = λ e. "";
}

abbrev pod : Consumer (Unit {0}) ℕ
pod = record {
  stream = "a.users";
  group = "a";
  name = "pod";
  handler = noop;
  inst = tt;
  policy = fail_loud;
  escalate_after = pos 10;
  block = pos 2;
  count = 10;
  reclaim_min_idle = pos 30;
  reclaim_interval = pos 5;
  consumer_gc_interval = pos 300;
  consumer_gc_timeout = pos 600;
  heartbeat_interval = pos 15;
  ack_fn = λ id w. (none, w);
  claim_fn = λ id w. (some (plain "connection refused"), w);
}

abbrev behind : String → ℕ → ℕ
behind start w = if start == "-" then 1 else 0

ticks-Counts : Counts ticks (λ w. w)
ticks-Counts = record {
  made = λ d positive. ground arith;
  tick = λ w h. tick w h;
  cancel = λ w h. cancel w h;
}
  where
    tick : (w : ℕ) → (next w).0 ≡ ticked → w ≡ suc (next w).1
    tick zero h = absurd cc
    tick (suc n) h = refl

    cancel : (w : ℕ) → (next w).0 ≡ ctx_done → w ≡ 0
    cancel zero h = refl
    cancel (suc n) h = absurd cc

pod-Spends : Spends commands pod (λ w. w)
pod-Spends = record {
  pending = λ a w. refl;
  claim = λ ids w. refl;
  info = λ w. refl;
  del = λ name w. refl;
  beat = λ id w. refl;
}

abbrev peers_entry : Pending
peers_entry = record { id = "1-0"; consumer = "peer"; idle = pos 40 }

abbrev rows : Reply (List Pending) → List Pending
rows (reply xps) = xps
rows (refused e) = []

one_page :
    (start : String) (w : ℕ) (xps : List Pending) (b : Bool)
    → (start == "-") ≡ b
    → xps ≢ []
    → (if b then peers_entry ∷ [] else []) ≡ xps
    → behind (cursor commands pod start xps) w < behind start w
unfolding cursor
one_page start w xps true e given listed = rw (← listed, e) (omega arith)
one_page start w xps false e given listed = absurd (given (sym listed))

pod-Advances : Advances commands pod behind
pod-Advances = record {
  page = λ start w xp more listed.
      one_page start w (xp ∷ more) (start == "-") refl (λ e. cc) (ap rows listed);
  claimed = λ start ids w. omega arith;
}

abbrev runtime : Runtime ℕ
runtime = record { ctx_err = λ w. none; wait = λ d w. (none, w) }

loops-StopsAfter_example :
    StopsAfter 3 (reclaim_loop runtime ticks commands pod 2 4 3 [])
    × StopsAfter 3 (consumer_gc_loop runtime ticks commands pod 4 3 [])
    × StopsAfter 3 (heartbeat_loop runtime ticks commands pod 4 3 [])
loops-StopsAfter_example =
    loops-StopsAfter runtime ticks (λ w. w) ticks-Counts commands pod pod-Spends behind 2 4 3
      pod-Advances (λ w. omega arith) (omega arith) (omega arith) (omega arith) (omega arith)
