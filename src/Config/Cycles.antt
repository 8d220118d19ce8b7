-- ===== src/Config/Cycles.antt =====
-- `detectEmitCycles` of config.go: a depth-first walk of the graph of emissions.
pub mod Graph
pub mod Marks
pub mod Search
pub mod Emissions
use dasher.Common.{
  ℕ, zero, suc, String, ◌==◌, none, some, List, [], ◌∷◌, length, ◌+◌, if◌then◌else◌,
}
use dasher.Common.Dict.{Dict, lookup, insert}
use dasher.Config.{StreamBinding, resolve_key, scope_or_default}

abbrev pub consume_key : String → StreamBinding → String
consume_key instance_id s = resolve_key s.stream (scope_or_default s.scope) instance_id

-- The emission of a binding, from the key that it consumes to the key that it emits to.
unfoldable pub emit_edges : List StreamBinding → String → Dict String → Dict String
emit_edges [] instance_id edges = edges
emit_edges (s ∷ streams) instance_id edges = emit_edges streams instance_id (
    if s.emit == ""
    then edges
    else insert (consume_key instance_id s) (resolve_key s.emit "shared" instance_id) edges)

pub data Mark : Type 0 where
  unvisited visiting visited : Mark

-- The map `state`; a key that it lacks is unvisited, as Go's zero value has it.
abbrev pub Marks : Type 0
Marks = Dict Mark

unfoldable pub mark_of : Marks → String → Mark
mark_of state n = elim (lookup n state) [ none ↦ unvisited | some m ↦ m ]

-- The walk returns nil with the marks it leaves, or an error at the node that closes a cycle.
pub data Walk : Type 0 where
  finished : Marks → Walk
  cycle_at : String → Walk
  out_of_fuel : Walk

-- `state[n] = visited; return nil`, if the call before returned nil.
abbrev pub close : String → Walk → Walk
close n (finished state) = finished (insert n visited state)
close n (cycle_at m) = cycle_at m
close n out_of_fuel = out_of_fuel

module _ (edges : Dict String) where
  unfoldable pub dfs : ℕ → String → Marks → Walk
  dfs zero n state = out_of_fuel
  dfs (suc fuel) n state = elim (mark_of state n) [
    | visiting ↦ cycle_at n
    | visited ↦ finished state
    | unvisited ↦ elim (lookup n edges) [
      | none ↦ finished (insert n visited (insert n visiting state))
      | some next ↦ close n (dfs fuel next (insert n visiting state))
    ]
  ]

  -- `if state[key] == unvisited { if err := dfs(key); err != nil … }`
  unfoldable pub visit : ℕ → String → Marks → Walk
  visit fuel n state = elim (mark_of state n) [
    | unvisited ↦ dfs fuel n state
    | visiting ↦ finished state
    | visited ↦ finished state
  ]

  abbrev pub then_visit : Walk → (Marks → Walk) → Walk
  then_visit (finished state) f = f state
  then_visit (cycle_at n) f = cycle_at n
  then_visit out_of_fuel f = out_of_fuel

  unfoldable pub visit_all : ℕ → List String → Marks → Walk
  visit_all fuel [] state = finished state
  visit_all fuel (n ∷ ns) state = then_visit (visit fuel n state) (λ s. visit_all fuel ns s)

unfoldable pub keys_of : String → List StreamBinding → List String
keys_of instance_id [] = []
keys_of instance_id (s ∷ streams) = consume_key instance_id s ∷ keys_of instance_id streams

-- Fuel for one call more than there are edges is enough.
unfoldable pub detect_emit_cycles : List StreamBinding → String → Walk
detect_emit_cycles streams instance_id =
    let edges = emit_edges streams instance_id [] in
    visit_all edges (suc (length edges)) (keys_of instance_id streams) []
