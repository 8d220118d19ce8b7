-- ===== src/Memory.antt =====
-- The objects that the goroutines of a process share, behind pointers: the gateway client, the
-- producer, and the caches of the lookups, by address. `outside` is the world that calls of libraries change.
use dasher.Common.{ℕ, List, ◌==ℕ◌, if◌then◌else◌}
use dasher.Lookup.Cache.{Cache}
use dasher.Produce.{Producer}
use dasher.Services.Gateway.{GatewayClient}
use dasher.Value.{Row}

pub record Memory (W : Type 0) : Type 0 where
  pub outside : W
  pub gateway : GatewayClient
  pub producer : Producer
  pub caches : ℕ → Cache (List Row)
  pub next_cache : ℕ

-- A write through the pointer to a cache.
unfoldable pub put_cache : {W : Type 0} → ℕ → Cache (List Row) → Memory W → Memory W
put_cache a c m = record m { caches = λ b. if a ==ℕ b then c else m.caches b }
