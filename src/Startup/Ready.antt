-- ===== src/Startup/Ready.antt =====
-- What the consumers of a loaded configuration can rely on.
use dasher.Common.{◌≤◌, String, false, Option, ◌≡◌, refl, sym, arith, String-cases, inl, inr}
use dasher.Common.Int.{pos, leb_ℤ, halve, ◌<ℤ◌, ◌≤ℤ◌}
use dasher.Config.{StreamBinding, resolve_key, scope_or_default}
use dasher.Config.Cycles.{consume_key}
use dasher.Config.Load.{System, Config, ok, load}
use dasher.Config.Load.Tuning.{load-IsTuned}
use dasher.Consume.{Consumer}
use dasher.Consume.Options.{
  new, lifecycle, apply_all, derive_heartbeat, with_reclaim_min_idle, with_reclaim_interval,
  with_consumer_gc_interval, with_consumer_gc_timeout, with_heartbeat_interval,
}
use dasher.Errors.{Error}
use dasher.Handler.{Action, Handler, Policy}
use dasher.Startup.{consumer_of}

-- The consumer reads the key that the walk over the emissions takes for the binding, in the group
-- of the instance; its tickers have positive intervals, as `time.NewTicker` asks; it beats at
-- least twice in the idle time after which peers reclaim an entry; and a consumer is removed only
-- after a longer idle time.
pub record IsReady {I W : Type 0} (cfg : Config) (b : StreamBinding) (k : Consumer I W)
    : Type 0 where
  pub stream : k.stream ≡ consume_key cfg.instance_id b
  pub group : k.group ≡ cfg.instance_id
  pub escalate : pos 1 ≤ℤ k.escalate_after
  pub count : 1 ≤ k.count
  pub block : pos 0 <ℤ k.block
  pub interval : pos 0 <ℤ k.reclaim_interval
  pub gc_interval : pos 0 <ℤ k.consumer_gc_interval
  pub heartbeat : pos 0 <ℤ k.heartbeat_interval
  pub heartbeat_le : k.heartbeat_interval ≤ℤ halve k.reclaim_min_idle
  pub gc_timeout : k.reclaim_min_idle <ℤ k.consumer_gc_timeout

resolve_key-scope_or_default :
    (name scope id : String)
    → resolve_key name (scope_or_default scope) id ≡ resolve_key name scope id
unfolding scope_or_default resolve_key
resolve_key-scope_or_default name scope id = elim (String-cases scope "") [
  | inl (empty, _) ↦ rw empty refl
  | inr (_, given) ↦ rw given refl
]

module _ {I W : Type 0} (ack : String → String → String → Action W (Option Error))
    (claim : String → String → String → String → Action W (Option Error)) where
  -- A configuration that `Load` returns, and in which peers reclaim an entry after two nanoseconds
  -- or more, gives each binding a consumer that is ready, whatever its handler, instance and
  -- policy.
  pub consumer_of-IsReady :
      (sys : System) (cfg : Config) (b : StreamBinding) (h : Handler I W) (inst : I)
      (policy : Policy W)
      → load sys ≡ ok cfg
      → pos 2 ≤ℤ cfg.reclaim_min_idle
      → IsReady cfg b (consumer_of ack claim cfg b h inst policy)
  unfolding consumer_of new lifecycle apply_all derive_heartbeat with_reclaim_min_idle
      with_reclaim_interval with_consumer_gc_interval with_consumer_gc_timeout
      with_heartbeat_interval
  consumer_of-IsReady sys cfg b h inst policy loaded two =
      let (t, valid) = load-IsTuned sys cfg loaded in
      let (_, _, group) = t.named in
      let beats : leb_ℤ cfg.heartbeat_interval (pos 0) ≡ false = ground (arith, t.heartbeat_pos) in
      rw beats (record {
        stream = sym (resolve_key-scope_or_default b.stream b.scope cfg.instance_id);
        group = group;
        escalate = t.escalate;
        count = omega arith;
        block = omega arith;
        interval = t.interval;
        gc_interval = t.gc_interval;
        heartbeat = t.heartbeat_pos.1 two;
        heartbeat_le = t.heartbeat_le;
        gc_timeout = t.gc_timeout;
      })
