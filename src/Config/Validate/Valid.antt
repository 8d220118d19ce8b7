-- ===== src/Config/Validate/Valid.antt =====
-- What `validateInstance` accepts, stated without its order of checks and its graph walk.
use dasher.Common.{String, ◌==◌, false, not, ◌&&◌, ◌||◌, Option, none, any, ◌≡◌, ◌↔◌}
use dasher.Common.Int.{ℤ}
use dasher.Config.{InstanceConfig, Environment}
use dasher.Config.Cycles.{detect_emit_cycles}
use dasher.Config.Validate.{
  for_each, is_empty, check_lookup, check_gateway, check_binding, check_cycles, validate_instance,
}
use dasher.Config.Validate.Rules.{IsGoodLookup, IsGoodBinding, IsValidInstance}
use dasher.Config.Validate.Parts.{
  for_each_iff, check_lookup_iff, check_gateway_iff, check_binding_iff, check_cycles_iff,
  streams_iff, internal_iff, database_iff, >>_iff, fail_if_iff,
}

module _ (env : Environment) (parse_duration : String → Option ℤ) where
  -- The checks of `validateInstance`, each for itself.
  Passes : InstanceConfig → Type 0
  Passes inst =
      (is_empty inst.streams ≡ false)
      × (for_each inst.lookups (check_lookup env parse_duration) ≡ none)
      × ((not (inst.services.internal.url_env == "") && env inst.services.internal.url_env == "")
          ≡ false)
      × (check_gateway env parse_duration inst.services.gateway ≡ none)
      × ((any (λ s. not (is_empty s.enrich)) inst.streams
            && (inst.services.db.dsn_env == "" || env inst.services.db.dsn_env == ""))
          ≡ false)
      × (for_each inst.streams (check_binding env parse_duration inst) ≡ none)
      × (check_cycles env parse_duration (detect_emit_cycles inst.streams inst.id) ≡ none)

  Passes-validate_instance :
      (inst : InstanceConfig) → (validate_instance env parse_duration inst ≡ none) ↔ Passes inst
  unfolding validate_instance Passes
  Passes-validate_instance inst = (
    λ e₀.
        let (p₀, e₁) = (>>_iff _ _).0 e₀ in
        let (p₁, e₂) = (>>_iff _ _).0 e₁ in
        let (p₂, e₃) = (>>_iff _ _).0 e₂ in
        let (p₃, e₄) = (>>_iff _ _).0 e₃ in
        let (p₄, e₅) = (>>_iff _ _).0 e₄ in
        let (p₅, p₆) = (>>_iff _ _).0 e₅ in
        ((fail_if_iff _ _).0 p₀, p₁, (fail_if_iff _ _).0 p₂, p₃, (fail_if_iff _ _).0 p₄, p₅, p₆),
    λ (p₀, p₁, p₂, p₃, p₄, p₅, p₆). (>>_iff _ _).1 (
      (fail_if_iff _ _).1 p₀,
      (>>_iff _ _).1 (
        p₁,
        (>>_iff _ _).1 (
          (fail_if_iff _ _).1 p₂,
          (>>_iff _ _).1 (p₃, (>>_iff _ _).1 ((fail_if_iff _ _).1 p₄, (>>_iff _ _).1 (p₅, p₆))),
        ),
      ),
    ),
  )

  accepted :
      (inst : InstanceConfig)
      → validate_instance env parse_duration inst ≡ none
      → IsValidInstance env parse_duration inst
  unfolding Passes
  accepted inst e =
      let p = (Passes-validate_instance inst).0 e in
      record {
        streams = (streams_iff env parse_duration inst.streams).0 p.0;
        lookups =
            (for_each_iff env parse_duration (IsGoodLookup env parse_duration)
                (check_lookup env parse_duration) inst.lookups
                (check_lookup_iff env parse_duration)).0
              p.1;
        internal = (internal_iff env parse_duration inst).0 p.2;
        gateway = (check_gateway_iff env parse_duration inst.services.gateway).0 p.3;
        database = (database_iff env parse_duration inst).0 p.4;
        bindings =
            (for_each_iff env parse_duration (IsGoodBinding env parse_duration inst)
                (check_binding env parse_duration inst) inst.streams
                (check_binding_iff env parse_duration inst)).0
              p.5;
        acyclic = (check_cycles_iff env parse_duration inst).0 p.6;
      }

  all_pass : (inst : InstanceConfig) → IsValidInstance env parse_duration inst → Passes inst
  unfolding Passes
  all_pass inst v = (
    (streams_iff env parse_duration inst.streams).1 v.streams,
    (for_each_iff env parse_duration (IsGoodLookup env parse_duration)
          (check_lookup env parse_duration) inst.lookups (check_lookup_iff env parse_duration)).1
        v.lookups,
    (internal_iff env parse_duration inst).1 v.internal,
    (check_gateway_iff env parse_duration inst.services.gateway).1 v.gateway,
    (database_iff env parse_duration inst).1 v.database,
    (for_each_iff env parse_duration (IsGoodBinding env parse_duration inst)
          (check_binding env parse_duration inst) inst.streams
          (check_binding_iff env parse_duration inst)).1
        v.bindings,
    (check_cycles_iff env parse_duration inst).1 v.acyclic,
  )

  -- `validateInstance` accepts an instance exactly when every condition of `IsValidInstance` holds:
  -- of its bindings, its rules, its lookups and its services, and that no key is emitted back to
  -- itself in one stage or more, where of several bindings that consume one key only the last that
  -- emits counts: an emission of an earlier one, and a cycle through it, is not looked at.
  pub validate_instance_iff :
      (inst : InstanceConfig)
      → (validate_instance env parse_duration inst ≡ none) ↔ IsValidInstance env parse_duration inst
  validate_instance_iff inst =
      (accepted inst, λ v. (Passes-validate_instance inst).1 (all_pass inst v))
