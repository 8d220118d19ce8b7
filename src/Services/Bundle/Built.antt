-- ===== src/Services/Bundle/Built.antt =====
-- The services of an instance that validateInstance accepts.
use dasher.Common.{String, Option, none, some, [], All, ◌≡◌, ◌≢◌, ◌⊎◌}
use dasher.Common.Int.{ℤ}
use dasher.Config.{
  Environment, InstanceConfig, InternalServiceConfig, GatewayServiceConfig, DbConfig,
}
use dasher.Errors.{Error}
use dasher.Event.Parse.{Result, ok, fail}
use dasher.Services.Bundle.{Pgx, Services, max_conns_of}
use dasher.Services.Gateway.{GatewayClient}
use dasher.Services.Internal.{InternalClient}

-- A client of the internal service is there exactly when it is configured, and has an address.
abbrev pub Reaches : InternalServiceConfig → Option InternalClient → Type 0
Reaches cfg none = cfg.url_env ≡ ""
Reaches cfg (some c) = (cfg.url_env ≢ "") × (c.base_url ≢ "")

-- The same for the gateway, with its credentials, and no token yet.
abbrev pub LogsIn : GatewayServiceConfig → Option GatewayClient → Type 0
LogsIn cfg none = cfg.url_env ≡ ""
LogsIn cfg (some c) =
    (cfg.url_env ≢ "")
    × (c.base_url ≢ "")
    × (c.app_instance_code ≢ "")
    × (c.api_key ≢ "")
    × (c.tok ≡ "")

module _ (env : Environment) (parse_duration : String → Option ℤ) {W K P : Type 0}
    (pgx : Pgx W K P) where
  -- Why there is no pool.
  pub data Refuses (cfg : DbConfig) : Type 0 where
    bad_dsn : (e : Error) → pgx.parse_config (env cfg.dsn_env) ≡ fail e → Refuses cfg
    bad_pool :
        (k : K) (e : Error)
        → pgx.parse_config (env cfg.dsn_env) ≡ ok k
        → pgx.new_with_config k (max_conns_of cfg.max_conns) ≡ fail e
        → Refuses cfg

  -- A pool is there unless none is configured.
  abbrev pub Pools : DbConfig → Option P → Type 0
  Pools cfg none = (cfg.dsn_env ≡ "") ⊎ (env cfg.dsn_env ≡ "")
  Pools cfg (some pool) = (cfg.dsn_env ≢ "") × (env cfg.dsn_env ≢ "")

  abbrev pub Built : InstanceConfig → Result (Services P) → Type 0
  Built inst (fail e) = Refuses inst.services.db
  Built inst (ok s) =
      Reaches inst.services.internal s.internal
      × LogsIn inst.services.gateway s.gateway
      × Pools inst.services.db s.db
      × (All (λ b. b.enrich ≡ []) inst.streams ⊎ (s.db ≢ none))

  -- What the database's part of `New` returns.
  abbrev DbBuilt : DbConfig → Result (Option P) → Type 0
  DbBuilt cfg (fail e) = Refuses cfg
  DbBuilt cfg (ok db) = Pools cfg db
