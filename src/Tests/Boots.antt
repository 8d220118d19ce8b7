-- ===== src/Tests/Boots.antt =====
-- Witnesses of the theorems on the start of a process and on its end.
use dasher.Common.{String, none, some, List, [], ◌∷◌, ◌≡◌, ◌≢◌, refl, arith, eq_iff, ap, ◌∙◌, ◌*◌}
use dasher.Common.Dict.{Dict, lookup, insert}
use dasher.Common.Int.{pos}
use dasher.Catalog.{ttl_of, build_entry, build_entries, build_lookup_catalog}
use dasher.Config.{StreamBinding, InstanceConfig, getenv, resolve_key, scope_or_default}
use dasher.Config.Cycles.{detect_emit_cycles, dfs, visit, visit_all, keys_of, emit_edges, mark_of}
use dasher.Config.Load
use dasher.Config.Load.{
  System, Config, load, load_instance, load_escalate, parse_duration_env, consumer_name,
}
use dasher.Config.Validate.{
  check_lookup, check_gateway, check_rule, check_binding, validate_instance,
}
use dasher.Event.Parse.{ok}
use dasher.Handler.{Handler, returned, fail_loud}
use dasher.Handlers
use dasher.Handlers.{InstanceContext, forward, service_internal}
use dasher.Middleware.{emit_after}
use dasher.Startup.{consumer_of}
use dasher.Catalog.Entries.{slot_lookup}
use dasher.Lookup.{Lookup}
use dasher.Lookup.Cached.{value_of}
use dasher.Lookup.Registry
use dasher.Lookup.Registry.{register}
use dasher.Lookup.Sql.{Queries, new_sql_lookup, with_cache, sql_factory}
use dasher.Lookup.Sql
use dasher.Memory.{Memory}
use dasher.Pipeline.{base_handler, with_emit, with_enrich, build_handler}
use dasher.Services.{Http}
use dasher.Services.Bundle
use dasher.Services.Bundle.{Pgx, Services, internal_client, gateway_client, open_pool, db_pool}
use dasher.Startup.Boot.{
  Libraries, Started, start, start_with, build_consumers, emit_shared, catalog_of, context_of,
  shut_down,
}
use dasher.Startup.Boot.Keeps.{registry}
use dasher.Startup.Boot.Shutdown.{shut_down-Refuses}
use dasher.Startup.Boot.Starts.Consumers.{AreStarted}
use dasher.Startup.Boot.Starts.Ready.{start-IsReady}
use dasher.Startup.Ready.{IsReady}
use dasher.Tests.{codec, event}
use dasher.Tests.Catalogs.{formats, clock, blank}
use dasher.Tests.Configs.{users, pgx, settings, system}
use dasher.Tests.Requests.{jwt}
use dasher.Value.{Row}

abbrev forwards : StreamBinding
forwards = record {
  stream = "users";
  scope = "";
  handler = "order-sync@v1";
  emit = "joined";
  enrich = [];
}

-- An instance with a catalog of one entry, a pool for it, and a handler of the registry.
abbrev orders : InstanceConfig
orders = record users {
  services = record users.services { db = record { dsn_env = "URL"; max_conns = pos 0 } };
  streams = forwards ∷ [];
}

abbrev ordering : System
ordering = record system { unmarshal = λ raw. some (("a", orders) ∷ []) }

abbrev config : Config
config = record settings { inst = orders }

abbrev http : Http (Unit {0})
http = record {
  refuse = λ method url. none;
  send = λ r w. (ok (record { status_code = pos 200; body = "" }), w);
}

abbrev libraries : Libraries (Unit {0}) String String (List Row)
libraries = record {
  sys = ordering;
  pgx = pgx;
  queries = record {
    query = λ timeout pool sql args w. (ok [], w);
    collect = λ rows w. (ok rows, w);
  };
  jwt = jwt;
  http = http;
  forwarding = record { marshal = λ evt. some "{}"; now = λ w. pos 0 };
  formats = formats;
  clock = clock;
  numbers = record { parse_int = λ s. none; parse_float = λ s. none };
  codec = codec;
  xadd = λ stream fields w. (none, w);
  ack = λ stream group id m. (none, m);
  claim = λ stream group name id m. (none, m);
  blank = blank;
}

abbrev services : Services String
services = record {
  internal = some (record { base_url = "http://users"; token = "" });
  gateway = none;
  db = some "http://users";
}

ordering-load : load ordering ≡ Load.ok config
unfolding load load_instance load_escalate parse_duration_env consumer_name getenv lookup insert
    validate_instance check_lookup check_gateway check_rule check_binding detect_emit_cycles dfs
    visit visit_all keys_of emit_edges mark_of resolve_key scope_or_default
ordering-load = refl

abbrev catalog : Dict (Lookup (Memory (Unit {0})))
catalog =
    (
      "by_id",
      slot_lookup formats clock libraries.queries (record {
        address = 0;
        ttl = pos (60 * 1000000000);
        pool = "http://users";
        sql = "SELECT 1";
      }),
    )
    ∷ []

orders-catalog : (catalog_of libraries config services tt).0 ≡ ok catalog
unfolding build_lookup_catalog build_entries build_entry ttl_of Sql.default_registry register
    Registry.new insert lookup sql_factory new_sql_lookup value_of with_cache
orders-catalog = refl

abbrev composed : Handler (InstanceContext String) (Memory (Unit {0}))
composed =
    emit_after (emit_shared libraries) "joined"
      (forward jwt http libraries.forwarding service_internal)

forwards-build_handler :
    build_handler libraries.numbers forwards (registry libraries) (emit_shared libraries) catalog
    ≡ ok composed
unfolding build_handler base_handler with_emit with_enrich lookup Handlers.default_registry
forwards-build_handler = refl

abbrev context : InstanceContext String
context = context_of libraries config services

abbrev memory : Memory (Unit {0})
memory = (catalog_of libraries config services tt).1

shut_down-Refuses_example :
    (composed context (event "1-0") (shut_down libraries services memory)).0 ≢ returned none
shut_down-Refuses_example =
    shut_down-Refuses libraries config services tt catalog forwards composed context (event "1-0")
      memory orders-catalog forwards-build_handler (λ e. ground (arith, eq_iff "joined" ""))

abbrev started : Started (Unit {0}) String
started = record {
  config = config;
  services = services;
  consumers =
      consumer_of libraries.ack libraries.claim config forwards composed context fail_loud ∷ [];
  halted = none;
  memory = memory;
}

config-start_with : start_with libraries tt (Load.ok config) ≡ ok started
unfolding start_with Bundle.new internal_client gateway_client db_pool open_pool
    build_lookup_catalog build_entries build_entry ttl_of Sql.default_registry register Registry.new
    insert lookup sql_factory new_sql_lookup value_of with_cache build_consumers build_handler
    base_handler with_emit with_enrich Handlers.default_registry
config-start_with = refl

libraries-start : start libraries tt ≡ ok started
unfolding start
libraries-start = ap (start_with libraries tt) ordering-load ∙ config-start_with

start-IsReady_example : AreStarted (IsReady config) orders.streams started.consumers none
start-IsReady_example = start-IsReady libraries tt started libraries-start (omega arith)
