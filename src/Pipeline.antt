-- ===== src/Pipeline.antt =====
-- The handler of a binding, as buildHandler of dasher/cmd/dasher/main.go composes it.
pub mod Frames
pub mod Emits
pub mod Builds
pub mod Counts
use dasher.Common.{String, ◌<>◌, ◌==◌, Option, none, some, List, [], ◌∷◌, if◌then◌else◌}
use dasher.Common.Dict.{Dict, lookup}
use dasher.Config.{StreamBinding, EnrichRuleConfig}
use dasher.Errors.{plain}
use dasher.Event.Parse.{Result, ok, fail, ◌>>=◌}
use dasher.Handler.{Handler, Emitter, noop}
use dasher.Lookup.{Lookup}
use dasher.Lookup.Bind.{Numbers}
use dasher.Lookup.Runner.{EnrichRule}
use dasher.Middleware.{enrich, emit_after}

unfoldable pub resolve_rules :
    {W : Type 0} → List EnrichRuleConfig → Dict (Lookup W) → Result (List (EnrichRule W))
unfolding lookup
resolve_rules [] lookups = ok []
resolve_rules (rule ∷ rules) lookups = elim (lookup rule.lookup lookups) [
  | none ↦ fail (plain ("enrich references unknown lookup " <> rule.lookup))
  | some l ↦ resolve_rules rules lookups >>= λ rest.
      ok (
        record { lookup_name = rule.lookup; resolve = l; bind = rule.bind; into = rule.into }
        ∷ rest)
]

module _ {I W : Type 0} where
  -- The named handler, or Noop.
  unfoldable pub base_handler : StreamBinding → Dict (Handler I W) → Result (Handler I W)
  unfolding lookup noop
  base_handler b reg = if b.handler == "" then ok noop else elim (lookup b.handler reg) [
    | none ↦ fail (plain ("unknown handler " <> b.handler))
    | some h ↦ ok h
  ]

  -- `if b.Emit != "" { h = EmitAfter(…) }`
  unfoldable pub with_emit : Emitter W → String → Handler I W → Handler I W
  unfolding emit_after
  with_emit emit stream h = if stream == "" then h else emit_after emit stream h

  -- `if len(b.Enrich) > 0 { … }`
  unfoldable pub with_enrich :
      Numbers → List EnrichRuleConfig → Dict (Lookup W) → Handler I W → Result (Handler I W)
  unfolding enrich resolve_rules
  with_enrich n [] lookups h = ok h
  with_enrich n (rule ∷ rules) lookups h =
      resolve_rules (rule ∷ rules) lookups >>= λ resolved. ok (enrich n resolved h)

  unfoldable pub build_handler :
      Numbers
      → StreamBinding
      → Dict (Handler I W)
      → Emitter W
      → Dict (Lookup W)
      → Result (Handler I W)
  unfolding base_handler with_emit with_enrich
  build_handler n b reg emit lookups =
      base_handler b reg >>= λ base. with_enrich n b.enrich lookups (with_emit emit b.emit base)
