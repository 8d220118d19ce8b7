-- ===== src/Config/Cycles/Search.antt =====
-- The walk of `detectEmitCycles` against the cycles of the graph of emissions.
mod Steps
mod Dfs
mod Nodes
use dasher.Common.{
  ℕ, zero, suc, ◌+◌, ◌≤◌, ◌<◌, String, ◌==◌, eq_iff, eq_refl, Bool, true, false, Option, none, some,
  List, [], ◌∷◌, length, ◌≡◌, ◌≢◌, ◌↔◌, refl, sym, ◌∙◌, ap, arith, if◌then◌else◌, All, Option-cases,
  String-cases, inl, inr, ◌⊎◌,
}
use mathlib.Core.Path.{subst}
use dasher.Common.Dict.{Dict, lookup, insert, lookup-insert}
use dasher.Config.{StreamBinding, resolve_key}
use dasher.Config.Cycles.{
  Mark, unvisited, visiting, visited, Marks, mark_of, Walk, finished, cycle_at, out_of_fuel, close,
  dfs, visit, then_visit, visit_all, keys_of, consume_key, emit_edges, detect_emit_cycles,
}
use dasher.Config.Cycles.Graph.{
  Leads, step, more, Ends, stop, next, Leads-snoc, not-Leads_of_Ends, source_of,
}
use dasher.Config.Cycles.Marks.{
  mark_of-insert, mark_of-nil, open_edges, open_edges-le, open_edges-insert_lt,
}
use dasher.Config.Cycles.Search.Steps.{
  Mark-cases, finished-injective, close-eq-finished, close-eq-cycle, then_visit-eq-finished,
  then_visit-eq-cycle,
}
use dasher.Config.Cycles.Search.Dfs.{
  dfs-fuel, Sound-self, AllEnd-insert, Sound-insert, dfs-Sound, AllLead-insert, dfs-cycle,
}
use dasher.Config.Cycles.Search.Nodes.{
  Sound-trans, visit-Sound, visit-cycle, visit_all-cycle, All-keeps, visit_all-Sound,
  visit_all-fuel,
}

-- A property of all keys that are consumed holds of every source of an edge.
emit_edges-All :
    (P : String → Type 0) (streams : List StreamBinding) (id : String) (edges : Dict String)
    → All P (keys_of id streams)
    → ((n b : String) → lookup n edges ≡ some b → P n)
    → (n b : String) → lookup n (emit_edges streams id edges) ≡ some b
    → P n
unfolding emit_edges keys_of
emit_edges-All P [] id edges h k n b e = k n b e
emit_edges-All P (s ∷ streams) id edges (p, h) k n b e = emit_edges-All P streams id _ h step' n b e
  where
    step' :
        (m c : String)
        → lookup m (
            if s.emit == ""
            then edges
            else insert (consume_key id s) (resolve_key s.emit "shared" id) edges)
          ≡ some c
        → P m
    step' m c f = elim (String-cases (consume_key id s) m) [
      | inl (same, _) ↦ subst P same p
      | inr (_, other) ↦ k m c (
          ground (
            arith,
            other,
            lookup-insert (consume_key id s) m (resolve_key s.emit "shared" id) edges,
          ))
    ]

-- The graph that the walk is given.
abbrev pub emit_graph : List StreamBinding → String → Dict String
emit_graph streams id = emit_edges streams id []

Walk-cases :
    (w : Walk)
    → (w ≡ out_of_fuel) ⊎ (((n : String) × (w ≡ cycle_at n)) ⊎ ((s : Marks) × (w ≡ finished s)))
Walk-cases out_of_fuel = inl refl
Walk-cases (cycle_at n) = inr (inl (n, refl))
Walk-cases (finished s) = inr (inr (s, refl))

module _ (streams : List StreamBinding) (id : String) where
  nothing_visited : (m : String) → mark_of [] m ≡ visited → ⊥
  nothing_visited m h = cc (mark_of-nil m)

  nothing_visiting : (m : String) → mark_of [] m ≢ visiting
  nothing_visiting m h = cc (mark_of-nil m)

  abbrev walk : Walk
  walk = detect_emit_cycles streams id

  detect-acyclic :
      (state : Marks) → walk ≡ finished state → (n : String) → ¬ Leads (emit_graph streams id) n n
  unfolding detect_emit_cycles
  detect-acyclic state h n l =
      let (c, e) = source_of edges l in
      let (sound, all) =
        visit_all-Sound edges (suc (length edges)) (keys_of id streams) [] state
          (λ m v. absurd (nothing_visited m v)) nothing_visiting h in
      let reached =
        emit_edges-All (λ m. mark_of state m ≡ visited) streams id [] all
          (λ m b f. unfold lookup in cc f) n c e in
      not-Leads_of_Ends edges (sound.ends n reached) l
    where
      edges : Dict String
      edges = emit_graph streams id

  detect-cyclic :
      (x : String) → walk ≡ cycle_at x → (n : String) × Leads (emit_graph streams id) n n
  unfolding detect_emit_cycles
  detect-cyclic x h =
      visit_all-cycle (emit_graph streams id) (suc (length (emit_graph streams id)))
        (keys_of id streams) [] x (λ m v. absurd (nothing_visited m v)) nothing_visiting h

  detect-fuel : walk ≢ out_of_fuel
  unfolding detect_emit_cycles
  detect-fuel =
      visit_all-fuel (emit_graph streams id) (suc (length (emit_graph streams id)))
        (keys_of id streams) [] (omega arith)

-- `detectEmitCycles` always ends. It returns nil exactly when no key of its graph of emissions leads
-- back to itself, and an error exactly when some key does.
pub detect_emit_cycles_iff :
    (streams : List StreamBinding) (id : String)
    → (detect_emit_cycles streams id ≢ out_of_fuel)
      × (((state : Marks) × (detect_emit_cycles streams id ≡ finished state))
          ↔ ((n : String) → ¬ Leads (emit_graph streams id) n n))
      × (((x : String) × (detect_emit_cycles streams id ≡ cycle_at x))
          ↔ ((n : String) × Leads (emit_graph streams id) n n))
detect_emit_cycles_iff streams id = (
  detect-fuel streams id,
  (λ found. detect-acyclic streams id found.0 found.1, λ none_leads. ends none_leads),
  (λ found. detect-cyclic streams id found.0 found.1, λ leads. fails leads.0 leads.1),
)
  where
    ends :
        ((n : String) → ¬ Leads (emit_graph streams id) n n)
        → (state : Marks) × (detect_emit_cycles streams id ≡ finished state)
    ends h = elim (Walk-cases (detect_emit_cycles streams id)) [
      | inl out ↦ absurd (detect-fuel streams id out)
      | inr (inl (x, found)) ↦ let (n, l) = detect-cyclic streams id x found in absurd (h n l)
      | inr (inr done) ↦ done
    ]

    fails :
        (n : String)
        → Leads (emit_graph streams id) n n
        → (x : String) × (detect_emit_cycles streams id ≡ cycle_at x)
    fails n l = elim (Walk-cases (detect_emit_cycles streams id)) [
      | inl out ↦ absurd (detect-fuel streams id out)
      | inr (inl found) ↦ found
      | inr (inr (state, done)) ↦ absurd (detect-acyclic streams id state done n l)
    ]
