-- ===== src/Consume/Group/Removals.antt =====
-- Which consumers `gcConsumers` removes.
use dasher.Common.{
  String, ◌==◌, eq_iff, Bool, true, ◌&&◌, none, List, [], ◌∷◌, any, ◌≡◌, ◌≢◌, ◌↔◌, ◌⊎◌, inl, inr,
  refl, arith, Bool-cases,
}
use dasher.Common.Int.{◌≤ℤ◌}
use dasher.Consume.{Consumer}
use dasher.Consume.Group.{Redis, ConsumerInfo, reply, is_dead, gc_each, gc_consumers}

-- `removed` lists the consumers that Redis was asked to remove, whether it did or not.
pub record TracksRemovals {W : Type 0} (redis : Redis W) (removed : W → List String) : Type 0 where
  pub info_same : (w : W) → removed (redis.xinfo_consumers w).1 ≡ removed w
  pub del_asked :
      (name : String) (w : W) → removed (redis.xgroup_del_consumer name w).1 ≡ name ∷ removed w

abbrev pub Any : {A : Type 0} → (A → Type 0) → List A → Type 0
Any P [] = ⊥
Any P (x ∷ xs) = P x ⊎ Any P xs

abbrev pub occurs : String → List String → Bool
occurs name ids = any (λ j. j == name) ids

module _ {I W : Type 0} (redis : Redis W) (k : Consumer I W) where
  -- Another consumer of that name, long idle, with no entry pending.
  abbrev pub IsExpired : String → ConsumerInfo → Type 0
  IsExpired name xic =
      (xic.name ≡ name) × (name ≢ k.name) × (k.consumer_gc_timeout ≤ℤ xic.idle) × (xic.pending ≡ 0)

  pub is_dead_iff :
      (name : String) (xic : ConsumerInfo)
      → ((is_dead redis k xic && xic.name == name) ≡ true) ↔ IsExpired name xic
  unfolding is_dead
  is_dead_iff name xic =
      ground (arith, eq_iff xic.name name, eq_iff xic.name k.name, eq_iff name k.name)

module _ {I W : Type 0} (redis : Redis W) (k : Consumer I W) (removed : W → List String)
    (t : TracksRemovals redis removed) where
  gc_each_iff :
      (name : String) (consumers : List ConsumerInfo) (w : W)
      → (occurs name (removed (gc_each redis k consumers w)) ≡ true)
        ↔ ((occurs name (removed w) ≡ true) ⊎ Any (IsExpired redis k name) consumers)
  unfolding gc_each
  gc_each_iff name [] w = ground arith
  gc_each_iff name (xic ∷ rest) w = elim (Bool-cases (is_dead redis k xic)) [
    | inl dead ↦
        rw (dead, gc_each)
          (ground (
            arith,
            dead,
            is_dead_iff redis k name xic,
            t.del_asked xic.name w,
            gc_each_iff name rest (redis.xgroup_del_consumer xic.name w).1,
          ))
    | inr alive ↦
        rw (alive, gc_each)
          (ground (arith, alive, is_dead_iff redis k name xic, gc_each_iff name rest w))
  ]

  -- Where Redis reports the consumers of the group, `gcConsumers` returns nil, and asks for the
  -- removal of exactly those of another name that have been idle for the timeout and have no
  -- entry pending; that a removal fails stops nothing.
  pub gc_consumers_iff :
      (name : String) (consumers : List ConsumerInfo) (w : W)
      → (redis.xinfo_consumers w).0 ≡ reply consumers
      → ((gc_consumers redis k w).0 ≡ none)
        × ((occurs name (removed (gc_consumers redis k w).1) ≡ true)
            ↔ ((occurs name (removed w) ≡ true) ⊎ Any (IsExpired redis k name) consumers))
  unfolding gc_consumers
  gc_consumers_iff name consumers w e =
      rw (e, gc_consumers)
        (refl, rw (← t.info_same w) (gc_each_iff name consumers (redis.xinfo_consumers w).1))
