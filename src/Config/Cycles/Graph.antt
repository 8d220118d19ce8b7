-- ===== src/Config/Cycles/Graph.antt =====
-- The graph that `detectEmitCycles` walks: a map from the key of a stream to the key that its
-- events are emitted to.
use dasher.Common.{String, none, some, ◌≡◌, arith}
use dasher.Common.Dict.{Dict, lookup}
use mathlib.Core.Path.{subst}

-- A path of one emission or more.
pub data Leads (edges : Dict String) : String → String → Type 0 where
  step : {a b : String} → lookup a edges ≡ some b → Leads edges a b
  more : {a b c : String} → lookup a edges ≡ some b → Leads edges b c → Leads edges a c

-- The emissions that start at a key come to an end.
pub data Ends (edges : Dict String) : String → Type 0 where
  stop : {a : String} → lookup a edges ≡ none → Ends edges a
  next : {a b : String} → lookup a edges ≡ some b → Ends edges b → Ends edges a

module _ (edges : Dict String) where
  pub Leads-snoc : {a b c : String} → Leads edges a b → lookup b edges ≡ some c → Leads edges a c
  Leads-snoc (step e) f = more e (step f)
  Leads-snoc (more e l) f = more e (Leads-snoc l f)

  same_target : (a b c : String) → lookup a edges ≡ some b → lookup a edges ≡ some c → b ≡ c
  same_target a b c e f = ground (arith, e, f)

  -- The cycle, seen from the next key.
  rotate : {a b : String} → lookup a edges ≡ some b → Leads edges a a → Leads edges b b
  rotate {a} {b} e (step f) = step (subst (λ x. lookup x edges ≡ some b) (same_target _ _ _ f e) e)
  rotate {a} {b} e (more {b = x} f l) =
      subst (λ y. Leads edges y b) (same_target _ _ _ f e) (Leads-snoc l e)

  pub not-Leads_of_Ends : {a : String} → Ends edges a → ¬ Leads edges a a
  not-Leads_of_Ends (stop e) (step f) = ground (arith, e, f)
  not-Leads_of_Ends (stop e) (more f l) = ground (arith, e, f)
  not-Leads_of_Ends (next e t) l = not-Leads_of_Ends t (rotate e l)

  pub source_of : {a b : String} → Leads edges a b → (c : String) × (lookup a edges ≡ some c)
  source_of (step {b = b} e) = (b, e)
  source_of (more {b = b} e l) = (b, e)
