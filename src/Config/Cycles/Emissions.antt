-- ===== src/Config/Cycles/Emissions.antt =====
-- The emissions from stream to stream, as the bindings state them, against the map that
-- `detectEmitCycles` of config.go builds.
use dasher.Common.{
  String, ◌==◌, not, ◌&&◌, Option, none, some, List, [], ◌∷◌, ◌≡◌, ◌↔◌, refl, sym, ◌∙◌, arith,
  if◌then◌else◌,
}
use dasher.Common.Dict.{Dict, lookup, insert, lookup-insert}
use dasher.Config.{StreamBinding, resolve_key}
use dasher.Config.Cycles.{consume_key, emit_edges}
use dasher.Config.Cycles.Graph.{Leads, step, more}
use dasher.Config.Cycles.Search.{emit_graph}

-- The key that the last of the bindings that consume `key` and emit at all emits to.
abbrev pub last_target : List StreamBinding → String → String → Option String
last_target [] id key = none
last_target (s ∷ ss) id key = elim (last_target ss id key) as (λ _. Option String) [
  | some later ↦ some later
  | none ↦
      if not (s.emit == "") && (consume_key id s == key)
      then some (resolve_key s.emit "shared" id)
      else none
]

-- Events of one key are emitted, in one stage or more, to another.
pub data Emits (streams : List StreamBinding) (id : String) : String → String → Type 0 where
  directly : {a b : String} → last_target streams id a ≡ some b → Emits streams id a b
  onward :
      {a b c : String}
      → last_target streams id a ≡ some b
      → Emits streams id b c
      → Emits streams id a c

emit_edges-lookup :
    (streams : List StreamBinding) (id : String) (edges : Dict String) (key : String)
    → lookup key (emit_edges streams id edges)
      ≡ elim (last_target streams id key) as (λ _. Option String) [
        | some target ↦ some target
        | none ↦ lookup key edges
      ]
unfolding emit_edges
emit_edges-lookup [] id edges key = refl
emit_edges-lookup (s ∷ ss) id edges key =
    let target = resolve_key s.emit "shared" id in
    let rest =
      emit_edges-lookup ss id
        (if s.emit == "" then edges else insert (consume_key id s) target edges) key in
    ground (arith, rest, lookup-insert (consume_key id s) key target edges)

emit_graph-lookup :
    (streams : List StreamBinding) (id key : String)
    → lookup key (emit_graph streams id) ≡ last_target streams id key
unfolding lookup
emit_graph-lookup streams id key = ground (arith, emit_edges-lookup streams id [] key)

module _ (streams : List StreamBinding) (id : String) where
  emit_graph-Emits : {a b : String} → Leads (emit_graph streams id) a b → Emits streams id a b
  emit_graph-Emits (step {a} e) = directly (sym (emit_graph-lookup streams id a) ∙ e)
  emit_graph-Emits (more {a} e l) =
      onward (sym (emit_graph-lookup streams id a) ∙ e) (emit_graph-Emits l)

  emit_graph-Leads : {a b : String} → Emits streams id a b → Leads (emit_graph streams id) a b
  emit_graph-Leads (directly {a} e) = step (emit_graph-lookup streams id a ∙ e)
  emit_graph-Leads (onward {a} e l) = more (emit_graph-lookup streams id a ∙ e) (emit_graph-Leads l)

  pub emit_graph_iff : (a b : String) → Leads (emit_graph streams id) a b ↔ Emits streams id a b
  emit_graph_iff a b = (λ l. emit_graph-Emits l, λ l. emit_graph-Leads l)
