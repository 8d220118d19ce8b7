-- ===== src/Tests/Orders.antt =====
-- Witnesses of the theorems on the bind map of a rule.
use dasher.Common.{
  String, ◌==◌, eq_iff, eq_refl, Bool, true, none, some, List, [], ◌∷◌, any, ◌≡◌, refl, sym, ◌∙◌,
  arith, if◌then◌else◌, String-cases, Bool-cases, inl, inr,
}
use mathlib.Core.List.{Mem, Perm, not-mem-nil, mem-cons, mem-cons_self, mem-cons_of_mem}
use mathlib.Core.List.Perm
use mathlib.Core.Logic.Or
use dasher.Common.Dict.{Dict, lookup}
use dasher.Common.Maps.{SameMap}
use dasher.Lookup.Bind.{Numbers}
use dasher.Lookup.Cached.{Formats}
use dasher.Lookup.Cached.Orders.{Sorts, bind_key, bind_key-same}
use dasher.Value.{Value, Row, Table, number, int64, text}
use dasher.Common.Int.{pos}

-- The rules of these tests have two parameters, `id` and `org`: a sort of such names.
abbrev occurs : String → List String → Bool
occurs name xs = any (λ x. x == name) xs

abbrev sort_strings : List String → List String
sort_strings xs =
    let rest : List String = if occurs "org" xs then "org" ∷ [] else [] in
    if occurs "id" xs then "id" ∷ rest else rest

abbrev formats : Formats
formats = record { sort_strings = sort_strings; print = λ v. "string:x" }

mem_of_occurs : (name : String) (xs : List String) → occurs name xs ≡ true → Mem name xs
mem_of_occurs name [] h = absurd cc
mem_of_occurs name (x ∷ xs) h = elim (String-cases x name) [
  | inl (same, _) ↦ rw same mem-cons_self
  | inr (_, miss) ↦ mem-cons_of_mem x (mem_of_occurs name xs (ground (arith, miss, h)))
]

Bool-eq_prop : (a b : Bool) → IsProp (a ≡ b)
Bool-eq_prop a b = hlevel

occurs_of_mem : (name : String) (xs : List String) → Mem name xs → occurs name xs ≡ true
occurs_of_mem name [] m = absurd (not-mem-nil m)
occurs_of_mem name (x ∷ xs) m =
    Or.elim (Bool-eq_prop _ _) (mem-cons.0 m) (λ e. rw (← e, eq_refl name) refl)
      (λ m'. rw (occurs_of_mem name xs m') (ground arith))

occurs-perm : (name : String) (xs ys : List String) → Perm xs ys → occurs name xs ≡ occurs name ys
occurs-perm name xs ys p = elim (Bool-cases (occurs name xs)) [
  | inl there ↦
      there ∙ sym (occurs_of_mem name ys ((Perm.mem_iff p).0 (mem_of_occurs name xs there)))
  | inr absent ↦ elim (Bool-cases (occurs name ys)) [
    | inr gone ↦ absent ∙ sym gone
    | inl there ↦
        occurs_of_mem name xs ((Perm.mem_iff p).1 (mem_of_occurs name ys there)) ∙ sym there
  ]
]

formats-Sorts : Sorts formats
formats-Sorts = record {
  sorted = λ xs ys p. rw (occurs-perm "id" xs ys p, occurs-perm "org" xs ys p) refl;
}

abbrev numbers : Numbers
numbers = record { parse_int = λ s. some (pos 7); parse_float = λ s. none }

abbrev order : Table
order = some (("user_id", number "7") ∷ ("org_name", text "acme") ∷ [])

abbrev one_way : Dict String
one_way = ("id", "user_id") ∷ ("org", "org_name") ∷ []

abbrev other_way : Dict String
other_way = ("org", "org_name") ∷ ("id", "user_id") ∷ []

columns-SameMap : SameMap one_way other_way
unfolding lookup
columns-SameMap k = ground (arith, eq_iff "id" k, eq_iff "org" k, eq_iff "id" "org")

bind_key-same_example :
    bind_key formats formats-Sorts numbers order none one_way
    ≡ bind_key formats formats-Sorts numbers order none other_way
unfolding lookup
bind_key-same_example =
    bind_key-same formats formats-Sorts numbers order none one_way other_way (refl, (refl, tt))
      (refl, (refl, tt)) columns-SameMap

abbrev bind : Row
bind = ("id", int64 (pos 7)) ∷ ("org", text "acme") ∷ []
