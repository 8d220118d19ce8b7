-- ===== src/Consume/Group/Peers.antt =====
-- peerReclaim against an entry that another consumer keeps alive by its heartbeat.
use dasher.Common.{
  ℕ, zero, suc, String, ◌<>◌, Bool, Option, none, some, List, [], ◌∷◌, ◌≡◌, refl, ◌∙◌, true, false,
  ltb, length,
}
use dasher.Common.Int.{ℤ, pos, ◌<ℤ◌}
use dasher.Consume.{Consumer}
use dasher.Consume.Group.{
  Redis, PendingArgs, Pending, Reply, reply, refused, peers_of, claim_peers, cursor,
  peer_reclaim_from, peer_reclaim,
}
use dasher.Consume.Process.{Message}
use dasher.Errors.{Error, wrapped}

module _ {W : Type 0} (owner : W → String) (idle : W → ℕ) where
  -- The owner and the idle time of one entry are as they were.
  abbrev pub Same : W → W → Type 0
  Same w w' = (owner w' ≡ owner w) × (idle w' ≡ idle w)

  -- `XPENDING` reads, and `XCLAIM` leaves an entry alone that is idle for less than it is given.
  pub record Spares (redis : Redis W) : Type 0 where
    pub pending : (a : PendingArgs) (w : W) → Same w (redis.xpending a w).1
    pub claim :
        (name : String) (min_idle : ℤ) (ids : List String) (w : W)
        → pos (idle w) <ℤ min_idle
        → Same w (redis.xclaim name min_idle ids w).1

  module _ {I : Type 0} (redis : Redis W) (k : Consumer I W) (spares : Spares redis) where
    Same-trans : {w w' w'' : W} → Same w w' → Same w' w'' → Same w w''
    Same-trans (o, i) (o', i') = (o' ∙ o, i' ∙ i)

    claim_peers-Same :
        (ids : List String) (w : W)
        → pos (idle w) <ℤ k.reclaim_min_idle
        → Same w (claim_peers redis k ids w).1
    unfolding claim_peers
    claim_peers-Same [] w h = (refl, refl)
    claim_peers-Same (id ∷ ids) w h =
        answered (redis.xclaim k.name k.reclaim_min_idle (id ∷ ids) w).0 _
          (spares.claim k.name k.reclaim_min_idle (id ∷ ids) w h)
      where
        answered :
            (r : Reply (List Message)) (w' : W)
            → Same w w'
            → Same w
                (elim r as (λ _. Option Error × W) [
                  | reply _ ↦ (none, w')
                  | refused e ↦ (some (wrapped ("XCLAIM peer " <> k.stream) e), w')
                ]).1
        answered (reply ms) w' s = s
        answered (refused e) w' s = s

    still_busy :
        (w w' : W)
        → Same w w'
        → pos (idle w) <ℤ k.reclaim_min_idle
        → pos (idle w') <ℤ k.reclaim_min_idle
    still_busy w w' (_, same) h = rw same h

    peer_reclaim_from-Same :
        (fuel : ℕ) (start : String) (w : W)
        → pos (idle w) <ℤ k.reclaim_min_idle
        → Same w (peer_reclaim_from redis k fuel start w).1
    unfolding peer_reclaim_from
    peer_reclaim_from-Same zero start w h = (refl, refl)
    peer_reclaim_from-Same (suc fuel) start w h =
        listed (redis.xpending args w).0 _ (spares.pending args w)
          (λ next w'. peer_reclaim_from-Same fuel next w')
      where
        args : PendingArgs
        args = record { start = start; count = k.count; consumer = none; idle = k.reclaim_min_idle }

        -- Behind the claim of a page.
        paged :
            (err : Option Error) (last : Bool) (next : String) (w₂ : W)
            → Same w w₂
            → Same w (peer_reclaim_from redis k fuel next w₂).1
            → Same w
                (elim err as (λ _. Option (Option Error) × W) [
                  | some e ↦ (some (some e), w₂)
                  | none ↦ elim last [
                    | true ↦ (some none, w₂)
                    | false ↦ peer_reclaim_from redis k fuel next w₂
                  ]
                ]).1
        paged (some e) last next w₂ s rest = s
        paged none true next w₂ s rest = s
        paged none false next w₂ s rest = rest

        listed :
            (r : Reply (List Pending)) (w₁ : W)
            → Same w w₁
            → ((next : String) (w' : W)
                → pos (idle w') <ℤ k.reclaim_min_idle
                → Same w' (peer_reclaim_from redis k fuel next w').1)
            → Same w
                (elim r as (λ _. Option (Option Error) × W) [
                  | refused e ↦ (some (some (wrapped ("XPENDING " <> k.stream) e)), w₁)
                  | reply xps ↦ elim xps [
                    | [] ↦ (some none, w₁)
                    | xp ∷ more ↦
                        let (err, w₂) = claim_peers redis k (peers_of redis k (xp ∷ more)) w₁ in
                        elim err [
                          | some e ↦ (some (some e), w₂)
                          | none ↦ elim (ltb (length (xp ∷ more)) k.count) [
                            | true ↦ (some none, w₂)
                            | false ↦
                                peer_reclaim_from redis k fuel (cursor redis k start (xp ∷ more)) w₂
                          ]
                        ]
                  ]
                ]).1
        listed (refused e) w₁ s rest = s
        listed (reply []) w₁ s rest = s
        listed (reply (xp ∷ more)) w₁ s rest =
            let ids = peers_of redis k (xp ∷ more) in
            let claimed = Same-trans s (claim_peers-Same ids w₁ (still_busy w w₁ s h)) in
            let w₂ = (claim_peers redis k ids w₁).1 in
            let next = cursor redis k start (xp ∷ more) in
            paged (claim_peers redis k ids w₁).0 _ next w₂ claimed
              (Same-trans claimed (rest next w₂ (still_busy w w₂ claimed h)))

    -- When `XCLAIM` leaves alone an entry that is idle for less than the time it is given,
    -- `peerReclaim`, however many pages it reads and wherever it fails, neither takes an entry that
    -- is idle for less than the configured time from its owner nor touches its idle time.
    pub peer_reclaim-Same :
        (fuel : ℕ) (w : W)
        → pos (idle w) <ℤ k.reclaim_min_idle
        → Same w (peer_reclaim redis k fuel w).1
    unfolding peer_reclaim
    peer_reclaim-Same fuel w h = peer_reclaim_from-Same fuel "-" w h
