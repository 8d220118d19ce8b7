-- ===== src/Config.antt =====
-- The configuration of an instance, dasher/internal/config/config.go: its types, the environment
-- that it names, and the keys of streams.
pub mod Validate
pub mod Cycles
pub mod Load
use dasher.Common.{ℕ, String, ◌<>◌, ◌==◌, Bool, Option, none, some, List, if◌then◌else◌}
use dasher.Common.Dict.{Dict, lookup}
use dasher.Common.Int.{ℤ}

pub record DbConfig : Type 0 where
  pub dsn_env : String
  pub max_conns : ℤ

pub record LookupSpecRaw : Type 0 where
  pub type_name : String
  pub ttl : String
  pub sql : String

-- The entries of a Go map stand in the order in which a `range` visits them, which is any order.
pub record EnrichRuleConfig : Type 0 where
  pub lookup : String
  pub bind : Dict String
  pub into : String

pub record StreamBinding : Type 0 where
  pub stream : String
  pub scope : String
  pub handler : String
  pub emit : String
  pub enrich : List EnrichRuleConfig

pub record GatewayServiceConfig : Type 0 where
  pub url_env : String
  pub app_instance_code_env : String
  pub api_key_env : String

pub record InternalServiceConfig : Type 0 where
  pub url_env : String
  pub token_env : String

pub record ServicesConfig : Type 0 where
  pub internal : InternalServiceConfig
  pub gateway : GatewayServiceConfig
  pub db : DbConfig

pub record InstanceConfig : Type 0 where
  pub id : String
  pub services : ServicesConfig
  pub lookups : Dict LookupSpecRaw
  pub streams : List StreamBinding

-- The named failures of `Load`. An error is known by the sentinel that it wraps.
pub data ConfigError : Type 0 where
  missing_instance_id instance_not_found no_streams missing_stream_name : ConfigError
  bad_escalate_after empty_binding bad_stream_scope self_emit emit_cycle : ConfigError
  unknown_lookup unknown_lookup_type missing_db_config missing_url_env : ConfigError
  missing_gateway_url_env missing_gateway_credentials bad_bind_key bad_lookup_ttl : ConfigError
  bad_reclaim_min_idle bad_reclaim_interval bad_consumer_gc_interval : ConfigError
  bad_consumer_gc_timeout consumer_gc_timeout_too_small : ConfigError
  bad_heartbeat_interval heartbeat_interval_too_large : ConfigError
  unreadable_file malformed_file : ConfigError

-- `os.Getenv`: the empty text stands for a variable that is not set.
abbrev pub Environment : Type 0
Environment = String → String

unfoldable pub getenv : Environment → String → String → String
getenv env key default = if env key == "" then default else env key

unfoldable pub resolve_key : String → String → String → String
resolve_key name scope instance_id = if scope == "shared" then name else instance_id <> "." <> name

unfoldable pub scope_or_default : String → String
scope_or_default s = if s == "" then "instance" else s
