-- ===== src/Consume/Options.antt =====
-- `New` and the functional options of consume.go.
use dasher.Common.{ℕ, String, Option, List, [], ◌∷◌, if◌then◌else◌, ◌*◌}
use dasher.Common.Int.{ℤ, pos, leb_ℤ, halve}
use dasher.Errors.{Error}
use dasher.Handler.{Action, Handler, Policy}
use dasher.Consume.{Consumer, second}

abbrev pub default_block_duration : ℤ
default_block_duration = pos (2 * second)

abbrev pub default_fetch_count : ℕ
default_fetch_count = 10

abbrev pub default_reclaim_min_idle : ℤ
default_reclaim_min_idle = pos (30 * second)

abbrev pub default_reclaim_interval : ℤ
default_reclaim_interval = pos (5 * second)

abbrev pub default_consumer_gc_interval : ℤ
default_consumer_gc_interval = pos (300 * second)

abbrev pub default_consumer_gc_timeout : ℤ
default_consumer_gc_timeout = pos (600 * second)

abbrev pub Setting : Type 0 → Type 0 → Type 0
Setting I W = Consumer I W → Consumer I W

module _ {I W : Type 0} where
  unfoldable pub with_reclaim_min_idle : ℤ → Setting I W
  with_reclaim_min_idle d c = record c { reclaim_min_idle = d }

  unfoldable pub with_reclaim_interval : ℤ → Setting I W
  with_reclaim_interval d c = record c { reclaim_interval = d }

  unfoldable pub with_block_duration : ℤ → Setting I W
  with_block_duration d c = record c { block = d }

  unfoldable pub with_consumer_gc_interval : ℤ → Setting I W
  with_consumer_gc_interval d c = record c { consumer_gc_interval = d }

  unfoldable pub with_consumer_gc_timeout : ℤ → Setting I W
  with_consumer_gc_timeout d c = record c { consumer_gc_timeout = d }

  unfoldable pub with_heartbeat_interval : ℤ → Setting I W
  with_heartbeat_interval d c = record c { heartbeat_interval = d }

  unfoldable pub apply_all : List (Setting I W) → Setting I W
  apply_all [] c = c
  apply_all (o ∷ opts) c = apply_all opts (o c)

  -- The interval that `New` falls back to once the options are applied.
  unfoldable pub derive_heartbeat : Setting I W
  derive_heartbeat c =
      if leb_ℤ c.heartbeat_interval (pos 0)
      then record c { heartbeat_interval = halve c.reclaim_min_idle }
      else c

  -- `ack` and `claim` are `XACK` and `XCLAIM … JUSTID` on the client.
  unfoldable pub new :
      (String → String → String → Action W (Option Error))
      → (String → String → String → String → Action W (Option Error))
      → String
      → String
      → String
      → Handler I W
      → I
      → Policy W
      → ℤ
      → List (Setting I W)
      → Consumer I W
  unfolding apply_all derive_heartbeat
  new ack claim stream group name h inst policy escalate_after opts = derive_heartbeat (
      apply_all opts (record {
        stream = stream;
        group = group;
        name = name;
        handler = h;
        inst = inst;
        policy = policy;
        escalate_after = escalate_after;
        block = default_block_duration;
        count = default_fetch_count;
        reclaim_min_idle = default_reclaim_min_idle;
        reclaim_interval = default_reclaim_interval;
        consumer_gc_interval = default_consumer_gc_interval;
        consumer_gc_timeout = default_consumer_gc_timeout;
        heartbeat_interval = pos 0;
        ack_fn = ack stream group;
        claim_fn = claim stream group name;
      }))

  -- The options that main.go passes to `New`, in its order.
  unfoldable pub lifecycle : ℤ → ℤ → ℤ → ℤ → ℤ → List (Setting I W)
  unfolding with_reclaim_min_idle with_reclaim_interval with_consumer_gc_interval
      with_consumer_gc_timeout with_heartbeat_interval
  lifecycle min_idle interval gc_interval gc_timeout heartbeat =
      with_reclaim_min_idle min_idle
      ∷ with_reclaim_interval interval
      ∷ with_consumer_gc_interval gc_interval
      ∷ with_consumer_gc_timeout gc_timeout
      ∷ with_heartbeat_interval heartbeat
      ∷ []
