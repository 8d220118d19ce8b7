-- ===== src/Services/Bundle.antt =====
-- Services, New and Close of services.go. The Postgres pool is a parameter.
pub mod Built
pub mod Conns
use dasher.Common.{ℕ, String, ◌<>◌, ◌==◌, ◌-◌, ◌%◌, ◌*◌, Option, none, some, ltb, if◌then◌else◌}
use dasher.Common.Int.{ℤ, pos, negsuc, leb_ℤ}
use dasher.Config.{
  Environment, InternalServiceConfig, GatewayServiceConfig, DbConfig, ServicesConfig,
}
use dasher.Errors.{wrapped}
use dasher.Event.Parse.{Result, ok, fail, ◌>>=◌}
use dasher.Services.Gateway.{GatewayClient}
use dasher.Services.Internal.{InternalClient}
use dasher.Services.Url.{trim_right}

-- `pgxpool.ParseConfig`, `pgxpool.NewWithConfig` on a configuration with its MaxConns, and
-- `pool.Close`.
pub record Pgx (W K P : Type 0) : Type 0 where
  pub parse_config : String → Result K
  pub new_with_config : K → ℤ → Result P
  pub close : P → W → W

-- A client or a pool that is nil is `none`. The gateway client is the state that it starts from.
pub record Services (P : Type 0) : Type 0 where
  pub internal : Option InternalClient
  pub gateway : Option GatewayClient
  pub db : Option P

-- `int32(n)` of a Go int: the low 32 bits, read as a signed number.
abbrev pub to_int32 : ℤ → ℤ
to_int32 n =
    let bits : ℕ = elim n [ pos a ↦ a % 4294967296 | negsuc a ↦ 4294967295 - a % 4294967296 ] in
    if ltb bits 2147483648 then pos bits else negsuc (4294967295 - bits)

unfoldable pub max_conns_of : ℤ → ℤ
max_conns_of n = let max_conns = to_int32 n in if leb_ℤ max_conns (pos 0) then pos 4 else max_conns

-- The zero `time.Time`, the start of the year 1.
abbrev pub zero_time : ℤ
zero_time = negsuc (62135596800 * 1000000000 - 1)

module _ (env : Environment) where
  unfoldable pub internal_client : InternalServiceConfig → Option InternalClient
  internal_client cfg =
      if cfg.url_env == ""
      then none
      else some (record { base_url = env cfg.url_env; token = env cfg.token_env })

  unfoldable pub gateway_client : GatewayServiceConfig → Option GatewayClient
  unfolding trim_right
  gateway_client cfg =
      let base_url = env cfg.url_env in
      if cfg.url_env == ""
      then none
      else some (record {
        base_url = base_url;
        auth_url = trim_right base_url <> "/api/auth/api_login/";
        app_instance_code = env cfg.app_instance_code_env;
        api_key = env cfg.api_key_env;
        tok = "";
        expiry = zero_time;
      })

  module _ {W K P : Type 0} (pgx : Pgx W K P) where
    -- The pool of a DSN that is not empty.
    unfoldable pub open_pool : String → ℤ → Result P
    unfolding max_conns_of
    open_pool dsn max_conns = elim (pgx.parse_config dsn) [
      | fail e ↦ fail (wrapped "services: parse db dsn" e)
      | ok pool_cfg ↦ elim (pgx.new_with_config pool_cfg (max_conns_of max_conns)) [
        | fail e ↦ fail (wrapped "services: create db pool" e)
        | ok pool ↦ ok pool
      ]
    ]

    unfoldable pub db_pool : DbConfig → Result (Option P)
    unfolding open_pool
    db_pool cfg =
        if cfg.dsn_env == ""
        then ok none
        else (if env cfg.dsn_env == ""
            then ok none
            else (open_pool (env cfg.dsn_env) cfg.max_conns >>= λ pool. ok (some pool)))

    unfoldable pub new : ServicesConfig → Result (Services P)
    unfolding internal_client gateway_client db_pool
    new cfg = do
      db ← db_pool cfg.db
      ok (record {
        internal = internal_client cfg.internal;
        gateway = gateway_client cfg.gateway;
        db = db;
      })

unfoldable pub close : {W K P : Type 0} → Pgx W K P → Services P → W → W
close pgx s w = elim s.db [ none ↦ w | some pool ↦ pgx.close pool w ]
