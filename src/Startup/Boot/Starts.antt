-- ===== src/Startup/Boot/Starts.antt =====
-- When main gets as far as to start its consumers.
pub mod Consumers
pub mod Ready
use dasher.Common.{
  String, ◌==◌, Option, none, some, ◌≡◌, ◌≢◌, ◌⊎◌, sym, ap, String-cases, Option-cases,
}
use dasher.Common.Dict.{Dict}
use dasher.Config.{EnrichRuleConfig, LookupSpecRaw}
use dasher.Config.Load
use dasher.Config.Load.{Config}
use dasher.Handlers
use dasher.Handlers.{InstanceContext}
use dasher.Memory.{Memory}
use dasher.Config.Validate.Rules.{IsGoodRule}
use dasher.Event.Parse.{Result, ok, fail}
use dasher.Handler.{Handler, fail_loud}
use dasher.Lookup.{Lookup}
use dasher.Lookup.Bind.{Numbers}
use dasher.Pipeline.Builds.{>>=-both, >>=-Succeeds, Succeeds->>=}
use dasher.Services.Bundle
use dasher.Services.Bundle.{Services}
use dasher.Startup.{consumer_of}
use dasher.Startup.Boot.{Libraries, Started}

module _ {W K P C : Type 0} (lib : Libraries W K P C) where
  abbrev pub registry : Dict (Handler (InstanceContext P) (Memory W))
  registry = Handlers.default_registry lib.jwt lib.http lib.forwarding

  abbrev pub IsBacked : Services P → String × LookupSpecRaw → Type 0
  IsBacked svc e = (svc.db ≢ none) × (e.1.sql ≢ "")

  -- main gets out of the loop over the bindings, to `g.Wait()`.
  abbrev pub Reaches : Result (Started W P) → Type 0
  Reaches (fail e) = ⊥
  Reaches (ok s) = s.halted ≡ none
