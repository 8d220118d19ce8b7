-- ===== src/Lookup.antt =====
-- The lookups that enrich events, dasher/internal/lookup. A lookup is a query in the world: its
-- database, and the cache in front of it.
pub mod Cache
pub mod Bind
pub mod Runner
pub mod Cached
pub mod Registry
pub mod Sql
use dasher.Common.{List}
use dasher.Event.Parse.{Result}
use dasher.Handler.{Action}
use dasher.Value.{Row}

-- `Resolve(ctx, bind)`
abbrev pub Lookup : Type 0 → Type 0
Lookup W = Row → Action W (Result (List Row))
