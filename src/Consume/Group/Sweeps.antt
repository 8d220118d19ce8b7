-- ===== src/Consume/Group/Sweeps.antt =====
-- What `gcConsumers` does to the entries that are pending for the consumers it removes.
use dasher.Common.{
  String, ◌==◌, Bool, true, ◌&&◌, List, [], ◌∷◌, any, ◌≡◌, ◌↔◌, inl, inr, refl, sym, ◌∙◌, arith,
  Bool-cases, if◌then◌else◌,
}
use dasher.Consume.{Consumer}
use dasher.Consume.Group.{Redis, ConsumerInfo, reply, is_dead, gc_each, gc_consumers}
use dasher.Consume.Group.Removals.{Any, IsExpired, is_dead_iff}

-- `pending_of` lists the entries that are pending for a consumer. `XGROUP DELCONSUMER` drops those
-- of the consumer that it removes, and leaves the others.
pub record Drops {W : Type 0} (redis : Redis W) (pending_of : W → String → List String)
    : Type 0 where
  pub dropped :
      (name other : String) (w : W)
      → pending_of (redis.xgroup_del_consumer name w).1 other
        ≡ (if name == other then [] else pending_of w other)

module _ {I W : Type 0} (redis : Redis W) (k : Consumer I W) (pending_of : W → String → List String)
    (drops : Drops redis pending_of) where
  expires : List ConsumerInfo → String → Bool
  expires consumers name = any (λ xic. is_dead redis k xic && xic.name == name) consumers

  pending_of-gc_each :
      (consumers : List ConsumerInfo) (w : W) (name : String)
      → pending_of (gc_each redis k consumers w) name
        ≡ (if expires consumers name then [] else pending_of w name)
  unfolding gc_each expires
  pending_of-gc_each [] w name = refl
  pending_of-gc_each (xic ∷ rest) w name = elim (Bool-cases (is_dead redis k xic)) [
    | inl dead ↦
        rw (dead, gc_each, expires)
          (pending_of-gc_each rest (redis.xgroup_del_consumer xic.name w).1 name
            ∙ ground (arith, drops.dropped xic.name name w))
    | inr alive ↦ rw (alive, gc_each, expires) (pending_of-gc_each rest w name)
  ]

  expires_iff :
      (consumers : List ConsumerInfo) (name : String)
      → (expires consumers name ≡ true) ↔ Any (IsExpired redis k name) consumers
  unfolding expires
  expires_iff [] name = ground arith
  expires_iff (xic ∷ rest) name =
      ground (arith, is_dead_iff redis k name xic, expires_iff rest name)

  -- Where Redis removes each consumer that it is asked to remove, `gcConsumers` leaves the pending
  -- entries of every consumer as they are behind its `XINFO`, exactly when no consumer that was
  -- reported long idle and without pending entries has one by then. One that has begun to work since
  -- the report loses its entries.
  pub gc_consumers-pending_iff :
      (consumers : List ConsumerInfo) (w : W)
      → (redis.xinfo_consumers w).0 ≡ reply consumers
      → ((name : String)
          → pending_of (gc_consumers redis k w).1 name
            ≡ pending_of (redis.xinfo_consumers w).1 name)
        ↔ ((name : String)
            → Any (IsExpired redis k name) consumers
            → pending_of (redis.xinfo_consumers w).1 name ≡ [])
  unfolding gc_consumers
  gc_consumers-pending_iff consumers w e =
      rw (e, gc_consumers)
        (
          λ same name old. loses name (same name) ((expires_iff consumers name).1 old),
          λ idle name. keeps name (idle name),
        )
    where
      w₁ : W
      w₁ = (redis.xinfo_consumers w).1

      loses :
          (name : String)
          → pending_of (gc_each redis k consumers w₁) name ≡ pending_of w₁ name
          → expires consumers name ≡ true
          → pending_of w₁ name ≡ []
      loses name same old = sym same ∙ pending_of-gc_each consumers w₁ name ∙ rw old

      keeps :
          (name : String)
          → (Any (IsExpired redis k name) consumers → pending_of w₁ name ≡ [])
          → pending_of (gc_each redis k consumers w₁) name ≡ pending_of w₁ name
      keeps name idle = elim (Bool-cases (expires consumers name)) [
        | inl old ↦
            pending_of-gc_each consumers w₁ name
            ∙ (rw old (sym (idle ((expires_iff consumers name).0 old))))
        | inr live ↦ pending_of-gc_each consumers w₁ name ∙ rw live
      ]
