-- ===== src/Config/Load/Tuning.antt =====
-- What a configuration that `Load` returns guarantees to the consumers.
use dasher.Common.{
  String, ◌==◌, eq_iff, Bool, true, false, Option, none, some, ◌≡◌, ◌≢◌, ◌⊎◌, ◌↔◌, refl, ap, ◌*◌,
  arith, Option-cases, inl, inr,
}
use dasher.Common.Dict.{lookup}
use dasher.Common.Int.{ℤ, pos, negsuc, ltb_ℤ, leb_ℤ, halve, ◌<ℤ◌, ◌≤ℤ◌}
use dasher.Config.{InstanceConfig, ConfigError, getenv}
use dasher.Config.Load.{
  System, Config, Loaded, ok, fail, ◌>>=◌, refuse_if, or_fail, refuse_failure, parse_duration_env,
  load_escalate, consumer_name, load_instance, load, second,
}
use dasher.Config.Validate.{validate_instance}
use dasher.Config.Validate.Rules.{IsValidInstance}
use dasher.Config.Validate.Valid.{validate_instance_iff}

>>=-eq-ok {ℓ κ} :
    {X : Type ℓ} {Y : Type κ} (first : Loaded X) (rest : X → Loaded Y) {y : Y}
    → (first >>= rest) ≡ ok y
    → (x : X) × (first ≡ ok x) × (rest x ≡ ok y)
>>=-eq-ok (fail refusal) rest h = cc
>>=-eq-ok (ok x) rest h = (x, refl, h)

ok-injective {ℓ} : {A : Type ℓ} (a b : A) → ok a ≡ ok b → a ≡ b
ok-injective {A} a b e = ap value e
  where
    value : Loaded A → A
    value (ok x) = x
    value (fail err) = a

refuse_failure-ok : (o : Option ConfigError) → refuse_failure o ≡ ok tt → o ≡ none
refuse_failure-ok none e = refl
refuse_failure-ok (some err) e = cc

halve-le : (m : ℤ) → pos 0 <ℤ m → pos 0 ≤ℤ halve m
halve-le (pos n) p = omega arith
halve-le (negsuc n) p = absurd (omega arith)

beats :
    (m h : ℤ)
    → pos 0 <ℤ m
    → h ≤ℤ halve m
    → (pos 0 <ℤ h) ⊎ (h ≡ halve m)
    → (pos 0 <ℤ h) ↔ (pos 2 ≤ℤ m)
beats (pos m) (pos h) p q r = ground arith
beats (pos m) (negsuc h) p q r = ground arith
beats (negsuc m) h p q r = absurd (omega arith)

module _ (sys : System) where
  -- A duration that is read is the default or positive.
  parse_duration_env-pos :
      (key : String) (default d : ℤ) (e : ConfigError)
      → pos 0 ≤ℤ default
      → parse_duration_env sys key default e ≡ ok d
      → (pos 0 <ℤ d) ⊎ ((sys.env key ≡ "") × (d ≡ default))
  unfolding parse_duration_env
  parse_duration_env-pos key default d e h r = ground (arith, eq_iff (sys.env key) "")

  pos_of :
      (key : String) (default d : ℤ) (e : ConfigError)
      → pos 0 <ℤ default
      → parse_duration_env sys key default e ≡ ok d
      → pos 0 <ℤ d
  pos_of key default d e h r =
      ground (arith, h, parse_duration_env-pos key default d e (omega arith) r)

  load_escalate-pos : (n : ℤ) → load_escalate sys ≡ ok n → pos 1 ≤ℤ n
  unfolding load_escalate
  load_escalate-pos n r = ground arith

  consumer_name-ne : consumer_name sys ≢ ""
  unfolding consumer_name
  consumer_name-ne = elim (Option-cases sys.hostname) [
    | inl gone ↦ rw (gone, consumer_name) (ground (arith, eq_iff "dasher" ""))
    | inr (h, named) ↦ rw (named, consumer_name) (ground (arith, eq_iff h "", eq_iff "dasher" ""))
  ]

  load_instance-IsValid :
      (id : String) (inst : InstanceConfig)
      → load_instance sys id ≡ ok inst
      → IsValidInstance sys.env sys.parse_duration inst × (inst.id ≡ id)
  unfolding load_instance
  load_instance-IsValid id inst r =
      let (raw, _, r₁) =
        >>=-eq-ok
          (or_fail ConfigError.unreadable_file
            (sys.read_file (getenv sys.env "DASHER_CONFIG" "config.yaml")))
          _ r in
      let (instances, _, r₂) =
        >>=-eq-ok (or_fail ConfigError.malformed_file (sys.unmarshal raw)) _ r₁ in
      let (found, _, r₃) =
        >>=-eq-ok (or_fail ConfigError.instance_not_found (lookup id instances)) _ r₂ in
      let block : InstanceConfig = record found { id = id } in
      let (_, passed, r₄) =
        >>=-eq-ok (refuse_failure (validate_instance sys.env sys.parse_duration block)) _ r₃ in
      let same = ok-injective block inst r₄ in
      rw (← same) (
        (validate_instance_iff sys.env sys.parse_duration block).0 (refuse_failure-ok _ passed),
        refl,
      )

  -- The settings of the consumers that a configuration carries.
  pub record IsTuned (c : Config) : Type 0 where
    pub named : (c.instance_id ≢ "") × (c.inst.id ≡ c.instance_id) × (c.group ≡ c.instance_id)
    pub consumer : c.consumer ≢ ""
    pub escalate : pos 1 ≤ℤ c.escalate_after
    pub min_idle : pos 0 <ℤ c.reclaim_min_idle
    pub interval : pos 0 <ℤ c.reclaim_interval
    pub gc_interval : pos 0 <ℤ c.consumer_gc_interval
    pub gc_timeout : c.reclaim_min_idle <ℤ c.consumer_gc_timeout
    pub heartbeat_le : c.heartbeat_interval ≤ℤ halve c.reclaim_min_idle
    pub heartbeat_pos : (pos 0 <ℤ c.heartbeat_interval) ↔ (pos 2 ≤ℤ c.reclaim_min_idle)

  refuse_if-ok : (b : Bool) (e : ConfigError) {u : Unit {0}} → refuse_if b e ≡ ok u → b ≡ false
  refuse_if-ok true e h = cc
  refuse_if-ok false e h = refl

  -- The durations are positive, and so the settings fit together.
  tuned :
      (c : Config)
      → (c.instance_id == "") ≡ false
      → c.inst.id ≡ c.instance_id
      → c.group ≡ c.instance_id
      → c.consumer ≡ consumer_name sys
      → load_escalate sys ≡ ok c.escalate_after
      → parse_duration_env sys "DASHER_RECLAIM_MIN_IDLE"
          (pos (30 * second))
          ConfigError.bad_reclaim_min_idle
        ≡ ok c.reclaim_min_idle
      → parse_duration_env sys "DASHER_RECLAIM_INTERVAL"
          (pos (5 * second))
          ConfigError.bad_reclaim_interval
        ≡ ok c.reclaim_interval
      → parse_duration_env sys "DASHER_CONSUMER_GC_INTERVAL"
          (pos (300 * second))
          ConfigError.bad_consumer_gc_interval
        ≡ ok c.consumer_gc_interval
      → leb_ℤ c.consumer_gc_timeout c.reclaim_min_idle ≡ false
      → parse_duration_env sys "DASHER_HEARTBEAT_INTERVAL"
          (halve c.reclaim_min_idle)
          ConfigError.bad_heartbeat_interval
        ≡ ok c.heartbeat_interval
      → ltb_ℤ (halve c.reclaim_min_idle) c.heartbeat_interval ≡ false
      → IsTuned c
  tuned c named same group consumer escalate min_idle interval gc later beat fits =
      let p = pos_of "DASHER_RECLAIM_MIN_IDLE" _ _ _ (omega arith) min_idle in
      record {
        named = (ground (arith, eq_iff c.instance_id ""), same, group);
        consumer = rw consumer consumer_name-ne;
        escalate = load_escalate-pos c.escalate_after escalate;
        min_idle = p;
        interval = pos_of "DASHER_RECLAIM_INTERVAL" _ _ _ (omega arith) interval;
        gc_interval = pos_of "DASHER_CONSUMER_GC_INTERVAL" _ _ _ (omega arith) gc;
        gc_timeout = ground arith;
        heartbeat_le = ground arith;
        heartbeat_pos = beats c.reclaim_min_idle c.heartbeat_interval p (ground arith) (
            ground (
              arith,
              parse_duration_env-pos "DASHER_HEARTBEAT_INTERVAL" (halve c.reclaim_min_idle)
                  c.heartbeat_interval ConfigError.bad_heartbeat_interval
                  (halve-le c.reclaim_min_idle p) beat,
            ));
      }

  -- A configuration that `Load` returns holds a valid instance and settings that fit together:
  -- the consumer has a name and the group the name of the instance, retries escalate from the
  -- first on at the earliest, the three intervals before the heartbeat's are positive, a consumer
  -- is removed later than its entries are reclaimed, and the heartbeat beats at least twice in
  -- the idle time that reclaims an entry; its interval is positive exactly if that idle time is
  -- at least two nanoseconds.
  pub load-IsTuned :
      (c : Config) → load sys ≡ ok c → IsTuned c × IsValidInstance sys.env sys.parse_duration c.inst
  unfolding load
  load-IsTuned c r =
      let id = sys.env "DASHER_INSTANCE_ID" in
      let (_, named, r₁) = >>=-eq-ok (refuse_if (id == "") ConfigError.missing_instance_id) _ r in
      let (inst, got, r₂) = >>=-eq-ok (load_instance sys id) _ r₁ in
      let (n, escalate, r₃) = >>=-eq-ok (load_escalate sys) _ r₂ in
      let (m, min_idle, r₄) =
        >>=-eq-ok
          (parse_duration_env sys "DASHER_RECLAIM_MIN_IDLE" (pos (30 * second))
            ConfigError.bad_reclaim_min_idle)
          _ r₃ in
      let (i, interval, r₅) =
        >>=-eq-ok
          (parse_duration_env sys "DASHER_RECLAIM_INTERVAL" (pos (5 * second))
            ConfigError.bad_reclaim_interval)
          _ r₄ in
      let (g, gc, r₆) =
        >>=-eq-ok
          (parse_duration_env sys "DASHER_CONSUMER_GC_INTERVAL" (pos (300 * second))
            ConfigError.bad_consumer_gc_interval)
          _ r₅ in
      let (t, timeout, r₇) =
        >>=-eq-ok
          (parse_duration_env sys "DASHER_CONSUMER_GC_TIMEOUT" (pos (600 * second))
            ConfigError.bad_consumer_gc_timeout)
          _ r₆ in
      let (_, later, r₈) =
        >>=-eq-ok (refuse_if (leb_ℤ t m) ConfigError.consumer_gc_timeout_too_small) _ r₇ in
      let (h, beat, r₉) =
        >>=-eq-ok
          (parse_duration_env sys "DASHER_HEARTBEAT_INTERVAL" (halve m)
            ConfigError.bad_heartbeat_interval)
          _ r₈ in
      let (_, fits, r₁₀) =
        >>=-eq-ok (refuse_if (ltb_ℤ (halve m) h) ConfigError.heartbeat_interval_too_large) _ r₉ in
      let (valid, same) = load_instance-IsValid id inst got in
      rw (← ok-injective _ c r₁₀) (
        tuned _ (refuse_if-ok _ _ named) same refl refl escalate min_idle interval gc
            (refuse_if-ok _ _ later) beat (refuse_if-ok _ _ fits),
        valid,
      )
