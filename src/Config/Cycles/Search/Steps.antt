-- ===== src/Config/Cycles/Search/Steps.antt =====
-- How the steps of the search end.
use dasher.Common.{String, ◌≡◌, refl, sym, ap, inl, inr, ◌⊎◌}
use dasher.Common.Dict.{Dict, insert}
use dasher.Config.Cycles.{
  Mark, unvisited, visiting, visited, Marks, Walk, finished, cycle_at, out_of_fuel, close,
  then_visit,
}

pub Mark-cases : (m : Mark) → (m ≡ unvisited) ⊎ ((m ≡ visiting) ⊎ (m ≡ visited))
Mark-cases unvisited = inl refl
Mark-cases visiting = inr (inl refl)
Mark-cases visited = inr (inr refl)

pub finished-injective : (s t : Marks) → finished s ≡ finished t → s ≡ t
finished-injective s t e = ap (marks s) e
  where
    marks : Marks → Walk → Marks
    marks d (finished x) = x
    marks d (cycle_at n) = d
    marks d out_of_fuel = d

pub close-eq-finished :
    (n : String) (w : Walk) (t : Marks)
    → close n w ≡ finished t
    → (s : Marks) × (w ≡ finished s) × (t ≡ insert n visited s)
close-eq-finished n (finished s) t e = (s, refl, sym (finished-injective _ _ e))
close-eq-finished n (cycle_at m) t e = cc
close-eq-finished n out_of_fuel t e = cc

pub close-eq-cycle : (n : String) (w : Walk) (x : String) → close n w ≡ cycle_at x → w ≡ cycle_at x
close-eq-cycle n (finished s) x e = cc
close-eq-cycle n (cycle_at m) x e = e
close-eq-cycle n out_of_fuel x e = cc

pub then_visit-eq-finished :
    (edges : Dict String) (w : Walk) (f : Marks → Walk) (t : Marks)
    → then_visit edges w f ≡ finished t
    → (s : Marks) × (w ≡ finished s) × (f s ≡ finished t)
then_visit-eq-finished edges (finished s) f t e = (s, refl, e)
then_visit-eq-finished edges (cycle_at n) f t e = cc
then_visit-eq-finished edges out_of_fuel f t e = cc

pub then_visit-eq-cycle :
    (edges : Dict String) (w : Walk) (f : Marks → Walk) (x : String)
    → then_visit edges w f ≡ cycle_at x
    → (w ≡ cycle_at x) ⊎ ((s : Marks) × (w ≡ finished s) × (f s ≡ cycle_at x))
then_visit-eq-cycle edges (finished s) f x e = inr (s, refl, e)
then_visit-eq-cycle edges (cycle_at n) f x e = inl e
then_visit-eq-cycle edges out_of_fuel f x e = cc
