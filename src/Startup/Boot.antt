-- ===== src/Startup/Boot.antt =====
-- main of dasher/cmd/dasher/main.go, up to the consumers that it starts, and what it does when they
-- have ended. Signals, logging, the error group and the Redis client's own life are left out.
pub mod Starts
pub mod Keeps
pub mod Shutdown
use dasher.Common.{ℕ, String, Option, none, some, List, [], ◌∷◌}
use dasher.Common.Dict.{Dict}
use dasher.Common.Int.{ℤ, pos}
use dasher.Catalog.{build_lookup_catalog}
use dasher.Config.{StreamBinding}
use dasher.Config.Load
use dasher.Config.Load.{System, Config, Loaded, load}
use dasher.Consume.{Consumer}
use dasher.Errors.{Error, plain}
use dasher.Event.{Codec, Event}
use dasher.Event.Parse.{Result, ok, fail, ◌>>=◌}
use dasher.Handler.{Action, Handler, Emitter, fail_loud}
use dasher.Handlers.{InstanceContext, Forwarding}
use dasher.Handlers
use dasher.Lookup.{Lookup}
use dasher.Lookup.Bind.{Numbers}
use dasher.Lookup.Cache.{CacheEntry, new_cache}
use dasher.Lookup.Cached.{Formats, Clock}
use dasher.Lookup.Registry.{Registry}
use dasher.Lookup.Sql
use dasher.Lookup.Sql.{Queries}
use dasher.Memory.{Memory}
use dasher.Pipeline.{build_handler}
use dasher.Produce
use dasher.Produce.{Xadd, emit}
use dasher.Services.{Http}
use dasher.Services.Bundle
use dasher.Services.Bundle.{Pgx, Services, zero_time}
use dasher.Services.Gateway.{GatewayClient, Jwt}
use dasher.Startup.{consumer_of}
use dasher.Value.{Row}

-- The libraries that a process calls: those of the configuration, of the database, of HTTP and JSON,
-- of the lookups, and Redis.
pub record Libraries (W K P C : Type 0) : Type 0 where
  pub sys : System
  pub pgx : Pgx W K P
  pub queries : Queries W P C
  pub jwt : Jwt
  pub http : Http W
  pub forwarding : Forwarding W
  pub formats : Formats
  pub clock : Clock W
  pub numbers : Numbers
  pub codec : Codec
  pub xadd : Xadd W
  pub ack : String → String → String → Action (Memory W) (Option Error)
  pub claim : String → String → String → String → Action (Memory W) (Option Error)
  pub blank : ℕ → CacheEntry (List Row)

abbrev no_client : GatewayClient
no_client = record {
  base_url = "";
  auth_url = "";
  app_instance_code = "";
  api_key = "";
  tok = "";
  expiry = zero_time;
}

-- What main has built and started in the loop over the bindings. `halted` is the error of `buildHandler`
-- with which main exits within that loop, behind the consumers that it has started.
pub record Started (W P : Type 0) : Type 0 where
  pub config : Config
  pub services : Services P
  pub consumers : List (Consumer (InstanceContext P) (Memory W))
  pub halted : Option Error
  pub memory : Memory W

module _ {W K P C : Type 0} (lib : Libraries W K P C) where
  -- `Emit` of the shared producer.
  unfoldable pub emit_shared : Emitter (Memory W)
  unfolding emit
  emit_shared stream evt m =
      let (err, w) = emit lib.codec lib.xadd m.producer stream evt m.outside in
      (err, record m { outside = w })

  -- The memory that the clients and the producer start from.
  abbrev pub first_memory : Config → Services P → W → Memory W
  first_memory cfg svc w = record {
    outside = w;
    gateway = elim svc.gateway [ none ↦ no_client | some c ↦ c ];
    producer = Produce.new cfg.instance_id;
    caches = λ a. new_cache lib.blank (pos 0);
    next_cache = 0;
  }

  abbrev pub context_of : Config → Services P → InstanceContext P
  context_of cfg svc = record { id = cfg.inst.id; config = cfg.inst; services = svc }

  abbrev pub factories : Registry W P
  factories = Sql.default_registry lib.formats lib.clock lib.blank lib.queries

  -- The lookups of the configuration, and the memory with their caches.
  abbrev pub catalog_of : Config → Services P → W → Result (Dict (Lookup (Memory W))) × Memory W
  catalog_of cfg svc w =
      build_lookup_catalog lib.sys.parse_duration factories (record { pool = svc.db })
        cfg.inst.lookups (first_memory cfg svc w)

  -- The loop over the bindings: the consumers that are started, one by one, and the error of
  -- `buildHandler` with which main exits behind them.
  unfoldable pub build_consumers :
      Config
      → InstanceContext P
      → Dict (Lookup (Memory W))
      → List StreamBinding
      → List (Consumer (InstanceContext P) (Memory W)) × Option Error
  unfolding build_handler consumer_of emit_shared Handlers.default_registry fail_loud
  build_consumers cfg inst lookups [] = ([], none)
  build_consumers cfg inst lookups (b ∷ bs) =
      elim (build_handler lib.numbers b (Handlers.default_registry lib.jwt lib.http lib.forwarding)
        emit_shared lookups) [
          | fail err ↦ ([], some err)
          | ok h ↦
              let (others, halted) = build_consumers cfg inst lookups bs in
              (consumer_of lib.ack lib.claim cfg b h inst fail_loud ∷ others, halted)
        ]

  -- What main makes of the result of `config.Load`; `os.Exit(1)` before the loop is a failure.
  unfoldable pub start_with : W → Loaded Config → Result (Started W P)
  unfolding build_consumers
  start_with w (Load.fail refusal) = fail (plain "invalid configuration")
  start_with w (Load.ok cfg) = do
    svc ← Bundle.new lib.sys.env lib.pgx cfg.inst.services
    let (built, m) = catalog_of cfg svc w
    lookups ← built
    let (consumers, halted) = build_consumers cfg (context_of cfg svc) lookups cfg.inst.streams
    ok (record { config = cfg; services = svc; consumers = consumers; halted = halted; memory = m })

  unfoldable pub start : W → Result (Started W P)
  unfolding start_with
  start w = start_with w (load lib.sys)

  -- What follows `g.Wait()`: the producer is closed, then the pool.
  unfoldable pub shut_down : Services P → Memory W → Memory W
  unfolding Produce.close Bundle.close
  shut_down svc m =
      let closed : Memory W = record m { producer = Produce.close m.producer } in
      record closed { outside = Bundle.close lib.pgx svc closed.outside }
