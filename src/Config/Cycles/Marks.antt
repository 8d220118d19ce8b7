-- ===== src/Config/Cycles/Marks.antt =====
-- The marks of the walk: how writing one changes the others, and how many edges are still to walk.
use dasher.Common.{
  ℕ, ◌+◌, ◌≤◌, ◌<◌, String, ◌==◌, eq_iff, some, [], ◌∷◌, length, ◌≡◌, refl, arith, if◌then◌else◌,
}
use dasher.Common.Dict.{Dict, lookup, insert, lookup-insert}
use dasher.Config.Cycles.{Mark, unvisited, visiting, visited, Marks, mark_of}

pub mark_of-insert :
    (n m : String) (v : Mark) (state : Marks)
    → mark_of (insert n v state) m ≡ (if n == m then v else mark_of state m)
unfolding mark_of
mark_of-insert n m v state = ground (arith, lookup-insert n m v state)

pub mark_of-nil : (n : String) → mark_of [] n ≡ unvisited
unfolding mark_of lookup
mark_of-nil n = refl

-- One for a key that is not visited yet.
abbrev fresh : Mark → ℕ
fresh unvisited = 1
fresh visiting = 0
fresh visited = 0

-- The edges whose source is not visited yet.
unfoldable pub open_edges : Dict String → Marks → ℕ
open_edges [] state = 0
open_edges ((k, v) ∷ edges) state = fresh (mark_of state k) + open_edges edges state

pub open_edges-le : (edges : Dict String) (state : Marks) → open_edges edges state ≤ length edges
unfolding open_edges
open_edges-le [] state = omega arith
open_edges-le ((k, v) ∷ edges) state = ground (arith, open_edges-le edges state)

open_edges-insert_le :
    (edges : Dict String) (n : String) (state : Marks)
    → open_edges edges (insert n visiting state) ≤ open_edges edges state
unfolding open_edges
open_edges-insert_le [] n state = omega arith
open_edges-insert_le ((k, v) ∷ edges) n state =
    ground (arith, open_edges-insert_le edges n state, mark_of-insert n k visiting state)

-- Visiting the source of an edge leaves fewer edges open.
pub open_edges-insert_lt :
    (edges : Dict String) (n : String) (state : Marks) (next : String)
    → mark_of state n ≡ unvisited
    → lookup n edges ≡ some next
    → open_edges edges (insert n visiting state) < open_edges edges state
unfolding open_edges lookup
open_edges-insert_lt [] n state next h e = cc
open_edges-insert_lt ((k, v) ∷ edges) n state next h e = ground (
  arith,
  eq_iff k n,
  eq_iff n k,
  open_edges-insert_le edges n state,
  mark_of-insert n k visiting state,
  open_edges-insert_lt edges n state next h,
)
