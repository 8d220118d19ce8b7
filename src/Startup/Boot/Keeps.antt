-- ===== src/Startup/Boot/Keeps.antt =====
-- The producer is out of reach of the handlers of the registry and of the lookups of the catalog.
use dasher.Common.{String, Option, none, some, [], ◌∷◌, All, ◌≡◌, refl, sym, inl, inr, Option-cases}
use mathlib.Core.Path.{subst}
use dasher.Common.Dict.{Dict, lookup, insert, lookup-All, insert-All}
use dasher.Catalog.{build_entries}
use dasher.Catalog.Entries.{EntryBuilt, build_entry-EntryBuilt, Slot, slot_lookup}
use dasher.Config.{LookupSpecRaw}
use dasher.Event.{Event}
use dasher.Event.Parse.{Result, ok, fail}
use dasher.Handler.{Handler}
use dasher.Handlers.{
  InstanceContext, Service, service_internal, service_gateway, HttpDoer, internal_doer,
  gateway_doer, select_client, forward,
}
use dasher.Handlers
use dasher.Lookup.{Lookup}
use dasher.Lookup.Sql.{at_cache}
use dasher.Memory.{Memory, put_cache}
use dasher.Pipeline.Frames.{Silent}
use dasher.Produce.{Producer}
use dasher.Value.{Row}
use dasher.Startup.Boot.{Libraries, factories}

module _ {W K P C : Type 0} (lib : Libraries W K P C) where
  abbrev pub registry : Dict (Handler (InstanceContext P) (Memory W))
  registry = Handlers.default_registry lib.jwt lib.http lib.forwarding

  -- The producer is what a call leaves as it was.
  abbrev pub producer_of : Memory W → Producer
  producer_of m = m.producer

  abbrev DoesKeep : Option (HttpDoer (Memory W)) → Type 0
  DoesKeep none = Unit
  DoesKeep (some do_request) =
      (method path body : String) (m : Memory W)
      → (do_request method path body m).1.producer ≡ m.producer

  select_client-DoesKeep :
      (inst : InstanceContext P) (service : Service)
      → DoesKeep (select_client lib.jwt lib.http lib.forwarding inst service)
  unfolding select_client internal_doer gateway_doer
  select_client-DoesKeep inst service_internal = elim (Option-cases inst.services.internal) [
    | inl absent ↦ rw (absent, select_client) tt
    | inr (c, found) ↦ rw (found, select_client) (λ method path body m. refl)
  ]
  select_client-DoesKeep inst service_gateway = elim (Option-cases inst.services.gateway) [
    | inl absent ↦ rw (absent, select_client) tt
    | inr (c, found) ↦ rw (found, select_client) (λ method path body m. refl)
  ]

  forward-Silent :
      (service : Service)
      → Silent {I = InstanceContext P} producer_of (forward lib.jwt lib.http lib.forwarding service)
  unfolding forward
  forward-Silent service inst evt m =
      let keeps = select_client-DoesKeep inst service in
      elim (Option-cases (select_client lib.jwt lib.http lib.forwarding inst service)) [
        | inl absent ↦ rw (absent, forward) refl
        | inr (do_request, found) ↦ elim (Option-cases (lib.forwarding.marshal evt)) [
          | inl unwritable ↦ rw (found, unwritable, forward) refl
          | inr (body, written) ↦
              let kept : DoesKeep (some do_request) = rw found at keeps in
              rw (found, written, forward) (kept "POST" "/events" body m)
        ]
      ]

  pub registry-Silent :
      (name : String) (h : Handler (InstanceContext P) (Memory W)) (inst : InstanceContext P)
      (evt : Event) (m : Memory W)
      → lookup name registry ≡ some h
      → producer_of (h inst evt m).1 ≡ producer_of m
  unfolding Handlers.default_registry
  registry-Silent name h inst evt m found =
      let internal = forward-Silent service_internal inst evt m in
      let gateway = forward-Silent service_gateway inst evt m in
      lookup-All (λ h'. producer_of (h' inst evt m).1 ≡ producer_of m) registry name h
        (internal, (internal, (internal, (internal, (gateway, tt))))) found

  abbrev pub Keeps : Lookup (Memory W) → Type 0
  Keeps l = (bind : Row) (m : Memory W) → producer_of (l bind m).1 ≡ producer_of m

  abbrev pub AllKeep : Result (Dict (Lookup (Memory W))) → Type 0
  AllKeep (fail e) = Unit
  AllKeep (ok out) = All (λ e. Keeps e.1) out

  slot_lookup-Keeps : (s : Slot P) → Keeps (slot_lookup lib.formats lib.clock lib.queries s)
  unfolding at_cache put_cache
  slot_lookup-Keeps s bind m = refl

  abbrev pub loop :
      Option P
      → Dict (Lookup (Memory W))
      → Dict LookupSpecRaw
      → Memory W
      → Result (Dict (Lookup (Memory W))) × Memory W
  loop db = build_entries lib.sys.parse_duration (factories lib) (record { pool = db })

  pub build_entries-AllKeep :
      (db : Option P) (out : Dict (Lookup (Memory W))) (todo : Dict LookupSpecRaw) (m : Memory W)
      → All (λ e. Keeps e.1) out
      → AllKeep (loop db out todo m).0
  unfolding build_entries
  build_entries-AllKeep db out [] m a = a
  build_entries-AllKeep db out ((name, raw) ∷ todo) m a =
      go _ _
        (build_entry-EntryBuilt lib.formats lib.clock lib.blank lib.queries lib.sys.parse_duration
          db name raw m)
        (λ l m'. build_entries-AllKeep db (insert name l out) todo m')
    where
      go :
          (r : Result (Lookup (Memory W))) (m' : Memory W)
          → EntryBuilt lib.formats lib.clock lib.blank lib.queries lib.sys.parse_duration db raw m r
              m'
          → ((l : Lookup (Memory W)) (m' : Memory W)
              → All (λ e. Keeps e.1) (insert name l out)
              → AllKeep (loop db (insert name l out) todo m').0)
          → AllKeep
              (elim r as (λ _. Result (Dict (Lookup (Memory W))) × Memory W) [
                | fail e ↦ (fail e, m')
                | ok l ↦ loop db (insert name l out) todo m'
              ]).0
      go (fail e) m' unfit rest = tt
      go (ok l) m' (_, _, (s, same, _, _, _)) rest = rest l m' (
          insert-All (λ n l'. Keeps l') out name l (subst Keeps (sym same) (slot_lookup-Keeps s)) a)
