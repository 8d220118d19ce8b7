-- ===== src/Config/Load.antt =====
-- `Load` and `parseDurationEnv` of config.go. The file, the YAML reader, the host name and the
-- readers of numbers and durations are parameters.
pub mod Tuning
use dasher.Common.{String, ◌==◌, Bool, true, false, ◌||◌, Option, none, some, ◌*◌, ℕ, if◌then◌else◌}
use dasher.Common.Dict.{Dict, lookup}
use dasher.Common.Int.{ℤ, pos, ltb_ℤ, leb_ℤ, halve}
use dasher.Config.{InstanceConfig, ConfigError, Environment, getenv}
use dasher.Config.Validate.{validate_instance}

-- What `Load` asks of the system and of libraries: `os.Getenv`, `os.ReadFile`, `yaml.Unmarshal`
-- into the map of instances, `os.Hostname`, `strconv.Atoi` and `time.ParseDuration`.
pub record System : Type 0 where
  pub env : Environment
  pub read_file : String → Option String
  pub unmarshal : String → Option (Dict InstanceConfig)
  pub hostname : Option String
  pub atoi : String → Option ℤ
  pub parse_duration : String → Option ℤ

pub record Config : Type 0 where
  pub instance_id : String
  pub redis_addr : String
  pub group : String
  pub consumer : String
  pub escalate_after : ℤ
  pub inst : InstanceConfig
  pub reclaim_min_idle : ℤ
  pub reclaim_interval : ℤ
  pub consumer_gc_interval : ℤ
  pub consumer_gc_timeout : ℤ
  pub heartbeat_interval : ℤ

pub data Loaded {ℓ} (A : Type ℓ) : Type ℓ where
  ok : A → Loaded A
  fail : ConfigError → Loaded A

-- `if err != nil { return Config{}, err }`, and the rest.
infixl 5 ◌>>=◌
abbrev pub ◌>>=◌ {ℓ κ} : {X : Type ℓ} {Y : Type κ} → Loaded X → (X → Loaded Y) → Loaded Y
fail refusal >>= rest = fail refusal
ok x >>= rest = rest x

infixl 5 ◌>>◌
abbrev pub ◌>>◌ {ℓ} : {Y : Type ℓ} → Loaded (Unit {0}) → Loaded Y → Loaded Y
first >> rest = first >>= λ _. rest

abbrev pub refuse_if : Bool → ConfigError → Loaded (Unit {0})
refuse_if true e = fail e
refuse_if false e = ok tt

abbrev pub or_fail {ℓ} : {A : Type ℓ} → ConfigError → Option A → Loaded A
or_fail e none = fail e
or_fail e (some a) = ok a

abbrev pub refuse_failure : Option ConfigError → Loaded (Unit {0})
refuse_failure none = ok tt
refuse_failure (some e) = fail e

abbrev pub second : ℕ
second = 1000000000

module _ (sys : System) where
  unfoldable pub parse_duration_env : String → ℤ → ConfigError → Loaded ℤ
  parse_duration_env key default sentinel =
      if sys.env key == "" then ok default else elim (sys.parse_duration (sys.env key)) [
        | none ↦ fail sentinel
        | some d ↦ if leb_ℤ d (pos 0) then fail sentinel else ok d
      ]

  -- `DASHER_ESCALATE_AFTER`, or 10.
  unfoldable pub load_escalate : Loaded ℤ
  load_escalate =
      if sys.env "DASHER_ESCALATE_AFTER" == ""
      then ok (pos 10)
      else elim (sys.atoi (sys.env "DASHER_ESCALATE_AFTER")) [
        | none ↦ fail ConfigError.bad_escalate_after
        | some n ↦ if ltb_ℤ n (pos 1) then fail ConfigError.bad_escalate_after else ok n
      ]

  unfoldable pub consumer_name : String
  consumer_name = elim sys.hostname [ none ↦ "dasher" | some h ↦ if h == "" then "dasher" else h ]

  -- The instance block that `DASHER_INSTANCE_ID` selects, validated.
  unfoldable pub load_instance : String → Loaded InstanceConfig
  load_instance instance_id = do
    raw ←
        or_fail ConfigError.unreadable_file
          (sys.read_file (getenv sys.env "DASHER_CONFIG" "config.yaml"))
    instances ← or_fail ConfigError.malformed_file (sys.unmarshal raw)
    found ← or_fail ConfigError.instance_not_found (lookup instance_id instances)
    let inst : InstanceConfig = record found { id = instance_id }
    refuse_failure (validate_instance sys.env sys.parse_duration inst)
    ok inst

  unfoldable pub load : Loaded Config
  unfolding load_instance load_escalate
  load = do
    let instance_id = sys.env "DASHER_INSTANCE_ID"
    refuse_if (instance_id == "") ConfigError.missing_instance_id
    inst ← load_instance instance_id
    escalate ← load_escalate
    reclaim_min_idle ←
        parse_duration_env "DASHER_RECLAIM_MIN_IDLE" (pos (30 * second))
          ConfigError.bad_reclaim_min_idle
    reclaim_interval ←
        parse_duration_env "DASHER_RECLAIM_INTERVAL" (pos (5 * second))
          ConfigError.bad_reclaim_interval
    gc_interval ←
        parse_duration_env "DASHER_CONSUMER_GC_INTERVAL" (pos (300 * second))
          ConfigError.bad_consumer_gc_interval
    gc_timeout ←
        parse_duration_env "DASHER_CONSUMER_GC_TIMEOUT" (pos (600 * second))
          ConfigError.bad_consumer_gc_timeout
    refuse_if (leb_ℤ gc_timeout reclaim_min_idle) ConfigError.consumer_gc_timeout_too_small
    heartbeat ←
        parse_duration_env "DASHER_HEARTBEAT_INTERVAL" (halve reclaim_min_idle)
          ConfigError.bad_heartbeat_interval
    refuse_if (ltb_ℤ (halve reclaim_min_idle) heartbeat) ConfigError.heartbeat_interval_too_large
    ok (record {
      instance_id = instance_id;
      redis_addr = getenv sys.env "DASHER_REDIS_ADDR" "localhost:6379";
      group = instance_id;
      consumer = consumer_name;
      escalate_after = escalate;
      inst = inst;
      reclaim_min_idle = reclaim_min_idle;
      reclaim_interval = reclaim_interval;
      consumer_gc_interval = gc_interval;
      consumer_gc_timeout = gc_timeout;
      heartbeat_interval = heartbeat;
    })
