-- ===== src/Startup/Boot/Starts/Ready.antt =====
-- The consumers that main starts.
use dasher.Common.{◌≡◌}
use dasher.Common.Int.{pos, ◌≤ℤ◌}
use dasher.Event.Parse.{ok}
use dasher.Handler.{fail_loud}
use dasher.Startup.Boot.{Libraries, Started, start}
use dasher.Startup.Boot.Starts.Consumers.{AreStarted, AreStarted-mono, start-AreStarted}
use dasher.Startup.Ready.{IsReady, consumer_of-IsReady}

module _ {W K P C : Type 0} (lib : Libraries W K P C) where
  -- main starts a consumer for each binding, in their order, and each is ready, if peers reclaim
  -- an entry after two nanoseconds or more. Only when it exits with an error within its loop are
  -- there bindings left without one, and those before have theirs, which are ready.
  pub start-IsReady :
      (w : W) (s : Started W P)
      → start lib w ≡ ok s
      → pos 2 ≤ℤ s.config.reclaim_min_idle
      → AreStarted (IsReady s.config) s.config.inst.streams s.consumers s.halted
  start-IsReady w s started two =
      let (_, ready) =
        start-AreStarted lib (λ cfg b k. pos 2 ≤ℤ cfg.reclaim_min_idle → IsReady cfg b k)
          (λ cfg b h inst loaded two'.
            consumer_of-IsReady lib.ack lib.claim lib.sys cfg b h inst fail_loud loaded two')
          w s started in
      AreStarted-mono s.config.inst.streams s.consumers s.halted (λ b k f. f two) ready
