-- ===== src/Startup.antt =====
-- The consumer that main of dasher/cmd/dasher/main.go builds for a binding.
pub mod Ready
pub mod Boot
use dasher.Common.{String, Option, List}
use dasher.Config.{StreamBinding, resolve_key}
use dasher.Config.Load.{Config}
use dasher.Consume.{Consumer}
use dasher.Consume.Options.{new, lifecycle}
use dasher.Errors.{Error}
use dasher.Handler.{Action, Handler, Policy}

module _ {I W : Type 0} (ack : String → String → String → Action W (Option Error))
    (claim : String → String → String → String → Action W (Option Error)) where
  unfoldable pub consumer_of : Config → StreamBinding → Handler I W → I → Policy W → Consumer I W
  unfolding new lifecycle resolve_key
  consumer_of cfg b h inst policy =
      new ack claim (resolve_key b.stream b.scope cfg.instance_id) cfg.group cfg.consumer h inst
        policy cfg.escalate_after
        (lifecycle cfg.reclaim_min_idle cfg.reclaim_interval cfg.consumer_gc_interval
          cfg.consumer_gc_timeout cfg.heartbeat_interval)
