-- ===== src/Config/Cycles/Search/Dfs.antt =====
-- What `dfs` does to the marks, whichever way it ends.
use dasher.Common.{
  ℕ, zero, suc, ◌<◌, String, eq_iff, eq_refl, some, ◌≡◌, ◌≢◌, arith, Option-cases, String-cases,
  inl, inr,
}
use mathlib.Core.Path.{subst}
use dasher.Common.Dict.{Dict, lookup, insert}
use dasher.Config.Cycles.{
  unvisited, visiting, visited, Marks, mark_of, finished, cycle_at, out_of_fuel, dfs,
}
use dasher.Config.Cycles.Graph.{Leads, step, Ends, stop, next, Leads-snoc}
use dasher.Config.Cycles.Marks.{mark_of-insert, open_edges, open_edges-insert_lt}
use dasher.Config.Cycles.Search.Steps.{
  Mark-cases, finished-injective, close-eq-finished, close-eq-cycle,
}

module _ (edges : Dict String) where
  pub dfs-fuel :
      (fuel : ℕ) (n : String) (state : Marks)
      → open_edges edges state < fuel
      → dfs edges fuel n state ≢ out_of_fuel
  unfolding dfs
  dfs-fuel zero n state h = absurd (omega arith)
  dfs-fuel (suc fuel) n state h = grind (arith, open_edges-insert_lt edges n state, dfs-fuel fuel)

  abbrev pub AllEnd : Marks → Type 0
  AllEnd state = (m : String) → mark_of state m ≡ visited → Ends edges m

  -- What a walk that returns nil leaves: it forgets no visited key, opens none, and every visited
  -- key has an end to its emissions.
  pub record Sound (state state' : Marks) : Type 0 where
    pub keeps : (m : String) → mark_of state m ≡ visited → mark_of state' m ≡ visited
    pub opens : (m : String) → mark_of state' m ≡ visiting → mark_of state m ≡ visiting
    pub ends : AllEnd state'

  pub Sound-self : (state : Marks) → AllEnd state → Sound state state
  Sound-self state a = record { keeps = λ m h. h; opens = λ m h. h; ends = a }

  pub AllEnd-insert : (n : String) (state : Marks) → AllEnd state → AllEnd (insert n visiting state)
  AllEnd-insert n state a m h = a m (ground (arith, mark_of-insert n m visiting state))

  -- The node itself is marked behind the walk from it.
  pub Sound-insert :
      (n : String) (state s : Marks)
      → mark_of state n ≡ unvisited
      → Ends edges n
      → Sound (insert n visiting state) s
      → Sound state (insert n visited s) × (mark_of (insert n visited s) n ≡ visited)
  Sound-insert n state s u e h = (
    record {
      keeps = λ m v. ground (
        arith,
        mark_of-insert n m visited s,
        mark_of-insert n m visiting state,
        eq_iff n m,
        h.keeps m,
      );
      opens = λ m v. ground (
        arith,
        mark_of-insert n m visited s,
        mark_of-insert n m visiting state,
        eq_iff n m,
        h.opens m,
      );
      ends = λ m v. elim (String-cases n m) [
        | inl (same, _) ↦ subst (Ends edges) same e
        | inr (_, other) ↦ h.ends m (ground (arith, other, mark_of-insert n m visited s))
      ];
    },
    ground (arith, mark_of-insert n n visited s, eq_refl n),
  )

  pub dfs-Sound :
      (fuel : ℕ) (n : String) (state state' : Marks)
      → AllEnd state
      → dfs edges fuel n state ≡ finished state'
      → Sound state state' × (mark_of state' n ≡ visited)
  unfolding dfs
  dfs-Sound zero n state state' a h = cc
  dfs-Sound (suc fuel) n state state' a h = elim (Mark-cases (mark_of state n)) [
    | inr (inl entered) ↦ absurd (ground arith)
    | inr (inr done) ↦
        let same = finished-injective state state' (rw (done, dfs) at h) in
        rw (← same) (Sound-self state a, done)
    | inl new ↦ elim (Option-cases (lookup n edges)) [
      | inl last ↦
          let same = finished-injective _ state' (rw (new, last, dfs) at h) in
          rw (← same)
            (Sound-insert n state _ new (stop last) (Sound-self _ (AllEnd-insert n state a)))
      | inr (m, onward) ↦
          let (s, walked, same) =
            close-eq-finished n (dfs edges fuel m (insert n visiting state)) state'
              (rw (new, onward, dfs) at h) in
          let (sound, reached) =
            dfs-Sound fuel m (insert n visiting state) s (AllEnd-insert n state a) walked in
          rw same (Sound-insert n state s new (next onward (sound.ends m reached)) sound)
    ]
  ]

  -- Every node whose walk has not returned leads to the node `n`.
  abbrev pub AllLead : Marks → String → Type 0
  AllLead state n = (m : String) → mark_of state m ≡ visiting → Leads edges m n

  pub AllLead-insert :
      (n m : String) (state : Marks)
      → lookup n edges ≡ some m
      → AllLead state n
      → AllLead (insert n visiting state) m
  AllLead-insert n m state e a x v = elim (String-cases n x) [
    | inl (same, _) ↦ subst (λ y. Leads edges y m) same (step e)
    | inr (_, other) ↦
        Leads-snoc edges (a x (ground (arith, other, mark_of-insert n x visiting state))) e
  ]

  pub dfs-cycle :
      (fuel : ℕ) (n : String) (state : Marks) (x : String)
      → AllLead state n
      → dfs edges fuel n state ≡ cycle_at x
      → (y : String) × Leads edges y y
  unfolding dfs
  dfs-cycle zero n state x a h = cc
  dfs-cycle (suc fuel) n state x a h = elim (Mark-cases (mark_of state n)) [
    | inr (inl entered) ↦ (n, a n entered)
    | inr (inr done) ↦ absurd (ground arith)
    | inl new ↦ elim (Option-cases (lookup n edges)) [
      | inl last ↦ absurd (ground arith)
      | inr (m, onward) ↦
          dfs-cycle fuel m (insert n visiting state) x (AllLead-insert n m state onward a)
            (close-eq-cycle n _ x (rw (new, onward, dfs) at h))
    ]
  ]

  -- Between two walks no node is left half visited.
  abbrev pub NoneOpen : Marks → Type 0
  NoneOpen state = (m : String) → mark_of state m ≢ visiting
