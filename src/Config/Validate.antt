-- ===== src/Config/Validate.antt =====
-- `validateInstance` of config.go: the checks in their order, each of which returns the first
-- failure that it meets. `parse_duration` stands for `time.ParseDuration`.
pub mod Rules
pub mod Parts
pub mod Valid
use dasher.Common.{
  String, ◌==◌, Bool, true, false, not, ◌&&◌, ◌||◌, Option, none, some, List, [], ◌∷◌, any,
  if◌then◌else◌,
}
use dasher.Common.Dict.{Dict, lookup}
use dasher.Common.Int.{ℤ}
use dasher.Config.{
  LookupSpecRaw, EnrichRuleConfig, StreamBinding, GatewayServiceConfig, InstanceConfig, ConfigError,
  Environment, resolve_key, scope_or_default,
}
use dasher.Config.Cycles.{Walk, finished, cycle_at, out_of_fuel, detect_emit_cycles}
use dasher.Ident.{match_ident}

abbrev pub Check : Type 0
Check = Option ConfigError

abbrev pub fail_if : Bool → ConfigError → Check
fail_if b e = if b then some e else none

-- `if err := a; err != nil { return err }`, and `b`.
infixr 20 ◌>>◌
abbrev pub ◌>>◌ : Check → Check → Check
none >> b = b
some e >> b = some e

-- `for … range xs { if err := …; err != nil { return err } }`
abbrev pub for_each {ℓ} : {A : Type ℓ} → List A → (A → Check) → Check
for_each [] f = none
for_each (x ∷ xs) f = f x >> for_each xs f

abbrev pub is_empty {ℓ} : {A : Type ℓ} → List A → Bool
is_empty [] = true
is_empty (_ ∷ _) = false

abbrev pub is_none {ℓ} : {A : Type ℓ} → Option A → Bool
is_none none = true
is_none (some _) = false

-- `allowedLookupTypes[t]`
abbrev pub is_allowed : String → Bool
is_allowed t = t == "sql"

module _ (env : Environment) (parse_duration : String → Option ℤ) where
  unfoldable pub check_lookup : String × LookupSpecRaw → Check
  check_lookup (name, spec) =
      fail_if (not (is_allowed spec.type_name)) ConfigError.unknown_lookup_type
      >> fail_if (not (spec.ttl == "") && is_none (parse_duration spec.ttl))
          ConfigError.bad_lookup_ttl

  unfoldable pub check_gateway : GatewayServiceConfig → Check
  check_gateway g =
      if not (g.url_env == "")
      then fail_if (env g.url_env == "") ConfigError.missing_gateway_url_env
        >> fail_if
            (g.app_instance_code_env == ""
              || (g.api_key_env == ""
                  || (env g.app_instance_code_env == "" || env g.api_key_env == "")))
            ConfigError.missing_gateway_credentials
      else none

  -- The rule's lookup is known, and its columns are identifiers.
  unfoldable pub check_rule : Dict LookupSpecRaw → EnrichRuleConfig → Check
  unfolding match_ident
  check_rule lookups rule =
      fail_if (is_none (lookup rule.lookup lookups)) ConfigError.unknown_lookup
      >> for_each rule.bind (λ (_, col). fail_if (not (match_ident col)) ConfigError.bad_bind_key)

  unfoldable pub check_binding : InstanceConfig → StreamBinding → Check
  unfolding resolve_key scope_or_default check_rule
  check_binding inst s =
      let scope = scope_or_default s.scope in
      fail_if (s.stream == "") ConfigError.missing_stream_name
      >> fail_if (not (scope == "instance") && not (scope == "shared")) ConfigError.bad_stream_scope
      >> fail_if (s.handler == "" && s.emit == "") ConfigError.empty_binding
      >> fail_if
          (not (s.emit == "")
            && resolve_key s.stream scope inst.id == resolve_key s.emit "shared" inst.id)
          ConfigError.self_emit
      >> for_each s.enrich (check_rule inst.lookups)

  abbrev pub check_cycles : Walk → Check
  check_cycles (finished state) = none
  check_cycles (cycle_at n) = some ConfigError.emit_cycle
  check_cycles out_of_fuel = some ConfigError.emit_cycle

  unfoldable pub validate_instance : InstanceConfig → Check
  unfolding check_lookup check_gateway check_binding detect_emit_cycles
  validate_instance inst =
      let services = inst.services in
      fail_if (is_empty inst.streams) ConfigError.no_streams
      >> for_each inst.lookups check_lookup
      >> fail_if (not (services.internal.url_env == "") && env services.internal.url_env == "")
          ConfigError.missing_url_env
      >> check_gateway services.gateway
      >> fail_if
          (any (λ s. not (is_empty s.enrich)) inst.streams
            && (services.db.dsn_env == "" || env services.db.dsn_env == ""))
          ConfigError.missing_db_config
      >> for_each inst.streams (check_binding inst)
      >> check_cycles (detect_emit_cycles inst.streams inst.id)
