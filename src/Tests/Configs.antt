-- ===== src/Tests/Configs.antt =====
-- Witnesses of the theorems on the configuration.
use dasher.Common.{
  String, ◌==◌, Option, none, some, List, [], ◌∷◌, ◌≡◌, ◌≢◌, ◌↔◌, refl, ◌*◌, if◌then◌else◌,
}
use dasher.Common.Dict.{lookup, insert}
use dasher.Common.Int.{ℤ, pos}
use dasher.Config.{
  StreamBinding, InstanceConfig, Environment, getenv, resolve_key, scope_or_default,
}
use dasher.Config.Cycles.{
  Marks, finished, cycle_at, out_of_fuel, detect_emit_cycles, dfs, visit, visit_all, keys_of,
  emit_edges, mark_of,
}
use dasher.Config.Cycles.Graph.{Leads}
use dasher.Config.Cycles.Search.{emit_graph, detect_emit_cycles_iff}
use dasher.Config.Load.{
  System, Config, ok, load, load_instance, load_escalate, parse_duration_env, consumer_name, second,
}
use dasher.Event.Parse.{Result}
use dasher.Services.Bundle.{Pgx}
use dasher.Services.Bundle.Built.{Built}
use dasher.Config.Load.Tuning.{IsTuned, load-IsTuned}
use dasher.Config.Validate.{
  check_lookup, check_gateway, check_rule, check_binding, validate_instance,
}
use dasher.Config.Validate.Rules.{IsValidInstance}
use dasher.Config.Validate.Valid.{validate_instance_iff}

abbrev pub binding : String → String → String → StreamBinding
binding stream scope emit = record {
  stream = stream;
  scope = scope;
  handler = "log";
  emit = emit;
  enrich = [];
}

-- A stream of the instance, whose events go to a shared stream, whose events go on.
abbrev streams : List StreamBinding
streams = binding "users" "" "joined" ∷ binding "joined" "shared" "done" ∷ []

abbrev pub users : InstanceConfig
users = record {
  id = "a";
  services = record {
    internal = record { url_env = "URL"; token_env = "" };
    gateway = record { url_env = ""; app_instance_code_env = ""; api_key_env = "" };
    db = record { dsn_env = ""; max_conns = pos 0 };
  };
  lookups = ("by_id", record { type_name = "sql"; ttl = "1h"; sql = "SELECT 1" }) ∷ [];
  streams = streams;
}

abbrev pub env : Environment
env key =
    if key == "DASHER_INSTANCE_ID"
    then "a"
    else (if key == "URL"
        then "http://users"
        else (if key == "DASHER_RECLAIM_MIN_IDLE" then "1m" else ""))

abbrev pub minute : String → Option ℤ
minute s = some (pos (60 * second))

abbrev pub system : System
system = record {
  env = env;
  read_file = λ path. some "instances:";
  unmarshal = λ raw. some (("a", users) ∷ []);
  hostname = some "pod";
  atoi = λ s. none;
  parse_duration = minute;
}

abbrev pub settings : Config
settings = record {
  instance_id = "a";
  redis_addr = "localhost:6379";
  group = "a";
  consumer = "pod";
  escalate_after = pos 10;
  inst = users;
  reclaim_min_idle = pos (60 * second);
  reclaim_interval = pos (5 * second);
  consumer_gc_interval = pos (300 * second);
  consumer_gc_timeout = pos (600 * second);
  heartbeat_interval = pos (30 * second);
}

system-load : load system ≡ ok settings
unfolding load load_instance load_escalate parse_duration_env consumer_name getenv lookup insert
    validate_instance check_lookup check_gateway check_rule check_binding detect_emit_cycles dfs
    visit visit_all keys_of emit_edges mark_of resolve_key scope_or_default
system-load = refl

load-IsTuned_example : IsTuned system settings × IsValidInstance env minute users
load-IsTuned_example = load-IsTuned system settings system-load

validate_instance_iff_example :
    (validate_instance env minute users ≡ none) ↔ IsValidInstance env minute users
validate_instance_iff_example = validate_instance_iff env minute users

detect_emit_cycles_iff_example :
    (detect_emit_cycles streams "a" ≢ out_of_fuel)
    × (((state : Marks) × (detect_emit_cycles streams "a" ≡ finished state))
        ↔ ((n : String) → ¬ Leads (emit_graph streams "a") n n))
    × (((x : String) × (detect_emit_cycles streams "a" ≡ cycle_at x))
        ↔ ((n : String) × Leads (emit_graph streams "a") n n))
detect_emit_cycles_iff_example = detect_emit_cycles_iff streams "a"

abbrev pub pgx : Pgx (Unit {0}) String String
pgx = record {
  parse_config = λ dsn. Result.ok dsn;
  new_with_config = λ k max_conns. Result.ok k;
  close = λ pool w. w;
}
