-- ===== src/Config/Cycles/Search/Nodes.antt =====
-- What the search from every unvisited key does to the marks.
use dasher.Common.{ℕ, ◌<◌, String, List, [], ◌∷◌, length, ◌≡◌, ◌≢◌, arith, All, inl, inr}
use dasher.Common.Dict.{Dict}
use dasher.Config.Cycles.{
  visited, Marks, mark_of, finished, cycle_at, out_of_fuel, visit, visit_all,
}
use dasher.Config.Cycles.Graph.{Leads}
use dasher.Config.Cycles.Marks.{open_edges-le}
use dasher.Config.Cycles.Search.Steps.{
  Mark-cases, finished-injective, then_visit-eq-finished, then_visit-eq-cycle,
}
use dasher.Config.Cycles.Search.Dfs.{
  Sound, AllEnd, NoneOpen, dfs-fuel, Sound-self, dfs-Sound, dfs-cycle,
}

module _ (edges : Dict String) where
  pub Sound-trans : {s t u : Marks} → Sound edges s t → Sound edges t u → Sound edges s u
  Sound-trans h k = record {
    keeps = λ m v. k.keeps m (h.keeps m v);
    opens = λ m v. h.opens m (k.opens m v);
    ends = k.ends;
  }

  pub visit-Sound :
      (fuel : ℕ) (n : String) (state state' : Marks)
      → AllEnd edges state
      → NoneOpen edges state
      → visit edges fuel n state ≡ finished state'
      → Sound edges state state' × (mark_of state' n ≡ visited)
  unfolding visit
  visit-Sound fuel n state state' a o h = elim (Mark-cases (mark_of state n)) [
    | inl new ↦ dfs-Sound edges fuel n state state' a (rw (new, visit) at h)
    | inr (inl entered) ↦ absurd (o n entered)
    | inr (inr done) ↦
        let same = finished-injective state state' (rw (done, visit) at h) in
        rw (← same) (Sound-self edges state a, done)
  ]

  pub visit-cycle :
      (fuel : ℕ) (n : String) (state : Marks) (x : String)
      → NoneOpen edges state
      → visit edges fuel n state ≡ cycle_at x
      → (y : String) × Leads edges y y
  unfolding visit
  visit-cycle fuel n state x o h = elim (Mark-cases (mark_of state n)) [
    | inl new ↦ dfs-cycle edges fuel n state x (λ m v. absurd (o m v)) (rw (new, visit) at h)
    | inr (inl entered) ↦ absurd (o n entered)
    | inr (inr done) ↦ absurd (ground arith)
  ]

  pub visit_all-cycle :
      (fuel : ℕ) (ns : List String) (state : Marks) (x : String)
      → AllEnd edges state
      → NoneOpen edges state
      → visit_all edges fuel ns state ≡ cycle_at x
      → (y : String) × Leads edges y y
  unfolding visit_all
  visit_all-cycle fuel [] state x a o h = cc
  visit_all-cycle fuel (n ∷ ns) state x a o h =
      elim (then_visit-eq-cycle edges (visit edges fuel n state) (visit_all edges fuel ns) x h) [
        | inl now ↦ visit-cycle fuel n state x o now
        | inr (s, first, later) ↦
            let (sound, _) = visit-Sound fuel n state s a o first in
            visit_all-cycle fuel ns s x sound.ends (λ m v. o m (sound.opens m v)) later
      ]

  pub All-keeps :
      (s t : Marks) (ns : List String)
      → All (λ n. mark_of s n ≡ visited) ns
      → Sound edges s t
      → All (λ n. mark_of t n ≡ visited) ns
  All-keeps s t [] h k = tt
  All-keeps s t (n ∷ ns) (v, h) k = (k.keeps n v, All-keeps s t ns h k)

  pub visit_all-Sound :
      (fuel : ℕ) (ns : List String) (state state' : Marks)
      → AllEnd edges state
      → NoneOpen edges state
      → visit_all edges fuel ns state ≡ finished state'
      → Sound edges state state' × All (λ n. mark_of state' n ≡ visited) ns
  unfolding visit_all
  visit_all-Sound fuel [] state state' a o h =
      rw (← finished-injective state state' h) (Sound-self edges state a, tt)
  visit_all-Sound fuel (n ∷ ns) state state' a o h =
      let (s, first, later) =
        then_visit-eq-finished edges (visit edges fuel n state) (visit_all edges fuel ns) state'
          h in
      let (sound, reached) = visit-Sound fuel n state s a o first in
      let (rest, all) =
        visit_all-Sound fuel ns s state' sound.ends (λ m v. o m (sound.opens m v)) later in
      (Sound-trans sound rest, (rest.keeps n reached, all))

  pub visit_all-fuel :
      (fuel : ℕ) (ns : List String) (state : Marks)
      → length edges < fuel
      → visit_all edges fuel ns state ≢ out_of_fuel
  unfolding visit_all visit
  visit_all-fuel fuel [] state h = cc
  visit_all-fuel fuel (n ∷ ns) state h =
      grind (arith, open_edges-le edges state, dfs-fuel edges fuel n state, visit_all-fuel fuel ns)
