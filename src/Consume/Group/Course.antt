-- ===== src/Consume/Group/Course.antt =====
-- The consumers of a group at work on one stream: their processing, their reads, their reclaims and
-- their removals of consumers, in any order.
use dasher.Common.{
  ℕ, zero, suc, String, Bool, true, false, Option, none, some, List, [], ◌∷◌, All, ◌≡◌, ◌≢◌, arith,
  Bool-cases, inl, inr,
}
use dasher.Common.Int.{ℤ}
use dasher.Event.{Codec}
use dasher.Consume.{Consumer, Runtime, Run}
use dasher.Consume.Process.{Message, process}
use dasher.Consume.Group.{
  Redis, PendingArgs, ConsumerInfo, is_dead, gc_each, heartbeat, claim_peers, peer_reclaim_from,
  peer_reclaim,
}
use dasher.Consume.Group.Owed.{Owes, served, process-IsSettled}

-- `owed` holds of a world while the group still owes the entry `id`, and `holds` says which consumer
-- it is pending for. The laws of the commands that the consumers share: a reclaim moves an entry from
-- one consumer to another, and `XGROUP DELCONSUMER` ends what is owed only where the consumer that
-- it removes has the entry.
pub record Keeps {W : Type 0} (redis : Redis W) (owed : W → Bool) (holds : W → String → Bool)
    : Type 0 where
  pub pending : (a : PendingArgs) (w : W) → owed w ≡ true → owed (redis.xpending a w).1 ≡ true
  pub claim :
      (name : String) (min_idle : ℤ) (ids : List String) (w : W)
      → owed w ≡ true
      → owed (redis.xclaim name min_idle ids w).1 ≡ true
  pub read :
      (name : String) (count : ℕ) (block : ℤ) (w : W)
      → owed w ≡ true
      → owed (redis.xreadgroup name count block w).1 ≡ true
  pub del :
      (name : String) (w : W)
      → holds w name ≡ false
      → owed w ≡ true
      → owed (redis.xgroup_del_consumer name w).1 ≡ true
  pub del_holds :
      (name other : String) (w : W)
      → holds w other ≡ false
      → holds (redis.xgroup_del_consumer name w).1 other ≡ false

module _ (I : Type 0) {W : Type 0} (redis : Redis W) (id : String) (owed : W → Bool)
    (holds : W → String → Bool) where
  -- The report counts the entry for the consumer that has it.
  abbrev pub Counts : List ConsumerInfo → W → Type 0
  Counts consumers w = All (λ xic. holds w xic.name ≡ true → xic.pending ≢ 0) consumers

  -- Worlds that the group reaches before a handler has succeeded for the entry. A removal of
  -- consumers acts on a report that may be old; it comes at a world in which the report still counts
  -- the entry.
  pub data Course : W → Type 0 where
    begins : (w : W) → owed w ≡ true → Course w
    reads :
        {w : W} (k : Consumer I W) → Course w → Course (redis.xreadgroup k.name k.count k.block w).1
    works :
        (rt : Runtime W) (k : Consumer I W) (c : Codec) (fuel : ℕ) (m : Message) (s : Run W)
        → Course s.world
        → Owes redis rt k id owed
        → served id (process rt k c fuel m s).1.deeds ≡ false
        → Course (process rt k c fuel m s).1.world
    beats :
        {w : W} (k : Consumer I W) (o : Option String)
        → Course w
        → ((j : String) → owed w ≡ true → owed (k.claim_fn j w).1 ≡ true)
        → Course (heartbeat redis k o w)
    reclaims :
        {w : W} (k : Consumer I W) (fuel : ℕ) → Course w → Course (peer_reclaim redis k fuel w).1
    sweeps :
        {w : W} (k : Consumer I W) (consumers : List ConsumerInfo)
        → Course w
        → Counts consumers w
        → Course (gc_each redis k consumers w)

  module _ (keeps : Keeps redis owed holds) where
    claim_peers-owed :
        (k : Consumer I W) (ids : List String) (w : W)
        → owed w ≡ true
        → owed (claim_peers redis k ids w).1 ≡ true
    unfolding claim_peers
    claim_peers-owed k [] w h = h
    claim_peers-owed k (j ∷ js) w h =
        ground (arith, h, keeps.claim k.name k.reclaim_min_idle (j ∷ js) w)

    peer_reclaim_from-owed :
        (k : Consumer I W) (fuel : ℕ) (start : String) (w : W)
        → owed w ≡ true
        → owed (peer_reclaim_from redis k fuel start w).1 ≡ true
    unfolding peer_reclaim_from
    peer_reclaim_from-owed k zero start w h = h
    peer_reclaim_from-owed k (suc fuel) start w h =
        grind (arith, keeps.pending, claim_peers-owed k, peer_reclaim_from-owed k fuel)

    Counts-del :
        (name : String) (consumers : List ConsumerInfo) (w : W)
        → Counts consumers w
        → Counts consumers (redis.xgroup_del_consumer name w).1
    Counts-del name [] w h = tt
    Counts-del name (xic ∷ rest) w (p, h) = (λ has. p (still has), Counts-del name rest w h)
      where
        still : holds (redis.xgroup_del_consumer name w).1 xic.name ≡ true → holds w xic.name ≡ true
        still has = elim (Bool-cases (holds w xic.name)) [
          | inl held ↦ held
          | inr free ↦ absurd (cc (keeps.del_holds name xic.name w free))
        ]

    -- A consumer is removed only if it was reported to have nothing pending.
    holds_of_dead :
        (k : Consumer I W) (xic : ConsumerInfo) (w : W)
        → is_dead redis k xic ≡ true
        → (holds w xic.name ≡ true → xic.pending ≢ 0)
        → holds w xic.name ≡ false
    unfolding is_dead
    holds_of_dead k xic w dead counted = ground (arith, dead, counted)

    gc_each-owed :
        (k : Consumer I W) (consumers : List ConsumerInfo) (w : W)
        → Counts consumers w
        → owed w ≡ true
        → owed (gc_each redis k consumers w) ≡ true
    unfolding gc_each
    gc_each-owed k [] w idle h = h
    gc_each-owed k (xic ∷ rest) w (p, idle) h = elim (Bool-cases (is_dead redis k xic)) [
      | inl dead ↦
          rw (dead, gc_each)
            (gc_each-owed k rest (redis.xgroup_del_consumer xic.name w).1
              (Counts-del xic.name rest w idle)
              (keeps.del xic.name w (holds_of_dead k xic w dead p) h))
      | inr alive ↦ rw (alive, gc_each) (gc_each-owed k rest w idle h)
    ]

    heartbeat-owed :
        (k : Consumer I W) (o : Option String) (w : W)
        → ((j : String) → owed w ≡ true → owed (k.claim_fn j w).1 ≡ true)
        → owed w ≡ true
        → owed (heartbeat redis k o w) ≡ true
    unfolding heartbeat
    heartbeat-owed k none w f h = h
    heartbeat-owed k (some j) w f h = f j h

    -- No entry is lost between the consumers of a group: in whatever order any number of them read,
    -- process entries, beat, reclaim each other's entries and remove idle consumers, an entry that
    -- the group owes stays owed until the handler of one of them has succeeded for it, as long as each
    -- removal acts on a report that counts the entry for the consumer that has it by then.
    pub Course-owed : {w : W} → Course w → owed w ≡ true
    unfolding peer_reclaim
    Course-owed (begins w h) = h
    Course-owed (reads {w = w} k course) = keeps.read k.name k.count k.block w (Course-owed course)
    Course-owed (works rt k c fuel m s course owes not_yet) =
        elim (process-IsSettled redis rt k c id owed owes fuel m s (inl (Course-owed course))) [
          | inl still ↦ still
          | inr done ↦ absurd (ground (arith, done, not_yet))
        ]
    Course-owed (beats {w = w} k o course f) = heartbeat-owed k o w f (Course-owed course)
    Course-owed (reclaims {w = w} k fuel course) =
        peer_reclaim_from-owed k fuel "-" w (Course-owed course)
    Course-owed (sweeps {w = w} k consumers course idle) =
        gc_each-owed k consumers w idle (Course-owed course)
