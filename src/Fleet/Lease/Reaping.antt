-- ===== src/Fleet/Lease/Reaping.antt =====
-- The reaping of expired leases, and the file round trip.
use mathlib.Core.Path.{subst}
use opl_flow.Base.{
  ◌↔◌, ◌⊎◌, ◌≤◌, leb, Bool-cases, ◌∙◌, ok-injective, sym, String, Bool, false, not, ◌&&◌, ◌||◌, ◌≡◌,
  ◌≢◌, refl, Option, none, some, [], ◌∷◌, ◌==◌, arith, eq_iff, if◌then◌else◌, inl, inr, ok,
  Result-cases,
}
use opl_flow.Base.Dict.{Dict, NodupKeys, lookup, lookup-erase, erase-NodupKeys}
use opl_flow.Fleet.Lease.Data.{Instant, Lease, LeaseStore, StoreFile, missing, stored}
use opl_flow.Fleet.Lease.Validate.{validate_lease_store}
use opl_flow.Fleet.Lease.Store.{
  upgrade, read_lease_store, write_lease_store, lease_is_expired, audit_lease, passed_over,
  reap_one, reap_items, reap_expired_leases, active_items,
}
use opl_flow.Fleet.Lease.Sound.{IsValid, validate_lease_store-eq-ok, validate_lease_store-IsValid}

-- What is left of a node's lease after a reap.
abbrev pub survivor : Option String → Instant → String → Option Lease → Option Lease
survivor node_id now j none = none
survivor node_id now j (some l) =
    if not (passed_over node_id j) && lease_is_expired l now then none else some l

module _ (now : Instant) (node_id : Option String) where
  abbrev goes : String → Lease → Bool
  goes j l = not (passed_over node_id j) && lease_is_expired l now

  -- some item of the key goes
  abbrev reaps : Dict Lease → String → Bool
  reaps [] j = false
  reaps ((k, l) ∷ d) j = (goes k l && k == j) || reaps d j

  lookup-reap_items :
      (d : Dict Lease) (s : LeaseStore) (j : String)
      → lookup j (reap_items d s now node_id).0.leases
        ≡ (if reaps d j then none else lookup j s.leases)
  unfolding reap_items reap_one audit_lease
  lookup-reap_items [] s j = refl
  lookup-reap_items ((k, l) ∷ d) s j = ground (
    arith,
    lookup-reap_items d s j,
    lookup-reap_items d (reap_one s k l now) j,
    lookup-erase j k s.leases,
  )

  reaps_of_absent : (d : Dict Lease) (j : String) → lookup j d ≡ none → reaps d j ≡ false
  unfolding lookup
  reaps_of_absent [] j h = refl
  reaps_of_absent ((k, l) ∷ d) j h = ground (arith, reaps_of_absent d j)

  reaps-lookup :
      (d : Dict Lease) (j : String)
      → NodupKeys d
      → (if reaps d j then none else lookup j d) ≡ survivor node_id now j (lookup j d)
  unfolding lookup
  reaps-lookup [] j h = refl
  reaps-lookup ((k, l) ∷ d) j h =
      ground (arith, eq_iff k j, reaps-lookup d j h.1, reaps_of_absent d j)

  reap_items-keeps :
      (d : Dict Lease) (s : LeaseStore)
      → ((reap_items d s now node_id).0.generation ≡ s.generation)
        × ((reap_items d s now node_id).0.schema ≡ s.schema)
  unfolding reap_items reap_one audit_lease
  reap_items-keeps [] s = (refl, refl)
  reap_items-keeps ((k, l) ∷ d) s =
      ground (arith, reap_items-keeps d s, reap_items-keeps d (reap_one s k l now))

  reap_items-NodupKeys :
      (d : Dict Lease) (s : LeaseStore)
      → NodupKeys s.leases
      → NodupKeys (reap_items d s now node_id).0.leases
  unfolding reap_items reap_one audit_lease
  reap_items-NodupKeys [] s h = h
  reap_items-NodupKeys ((k, l) ∷ d) s h = ground (
    arith,
    reap_items-NodupKeys d (reap_one s k l now) (erase-NodupKeys k s.leases h),
    reap_items-NodupKeys d s h,
  )

-- A reap is about the node that it names, or about every node.
abbrev pub IsAbout : Option String → String → Type 0
IsAbout none j = Unit
IsAbout (some node_id) j = (node_id ≡ "") ⊎ (j ≡ node_id)

-- The lease of the node has expired, and the reap is about the node.
abbrev pub IsReaped : Option String → Instant → String → Lease → Type 0
IsReaped node_id now j l = IsAbout node_id j × (l.expires_at ≤ now)

passed_over-IsAbout :
    (node_id : Option String) (j : String) → passed_over node_id j ≡ false → IsAbout node_id j
passed_over-IsAbout none j h = tt
passed_over-IsAbout (some n) j h = elim (Bool-cases (n == "")) [
  | inl every ↦ inl ((eq_iff n "").0 every)
  | inr one ↦ inr (ground (arith, one, eq_iff j n))
]

IsAbout-passed_over :
    (node_id : Option String) (j : String) → IsAbout node_id j → passed_over node_id j ≡ false
IsAbout-passed_over none j h = refl
IsAbout-passed_over (some n) j (inl every) = ground (arith, every, (eq_iff n "").1 every)
IsAbout-passed_over (some n) j (inr one) = ground (arith, (eq_iff j n).1 one)

survivor-IsReaped :
    (node_id : Option String) (now : Instant) (j : String) (o : Option Lease) (l : Lease)
    → (survivor node_id now j o ≡ some l) ↔ ((o ≡ some l) × (¬ IsReaped node_id now j l))
unfolding lease_is_expired
survivor-IsReaped node_id now j none l = (λ h. cc, λ h. absurd (ground (arith, h.0)))
survivor-IsReaped node_id now j (some m) l =
    elim (Bool-cases (not (passed_over node_id j) && leb m.expires_at now)) [
      | inl goes ↦ (
        λ h. absurd (ground (arith, goes)),
        λ h.
            absurd (
              h.1
                (passed_over-IsAbout node_id j (ground (arith, goes)), ground (arith, goes, h.0))),
      )
      | inr stays ↦ (
        λ h. (
          ground (arith, stays),
          λ reaped. ground (arith, stays, IsAbout-passed_over node_id j reaped.0, reaped.1),
        ),
        λ h. ground (arith, stays, h.0),
      )
    ]

module _ (s : LeaseStore) (now : Instant) (node_id : Option String) where
  pub lookup-reap_expired_leases :
      (j : String)
      → NodupKeys s.leases
      → lookup j (reap_expired_leases s now node_id).0.leases
        ≡ survivor node_id now j (lookup j s.leases)
  unfolding reap_expired_leases
  lookup-reap_expired_leases j h =
      lookup-reap_items now node_id s.leases s j ∙ reaps-lookup now node_id s.leases j h

  -- After a reap a node has a lease exactly if it had that lease before, and the lease has not expired or
  -- the reap is about another node.
  pub reap_expired_leases-IsReaped :
      (j : String) (l : Lease)
      → NodupKeys s.leases
      → (lookup j (reap_expired_leases s now node_id).0.leases ≡ some l)
        ↔ ((lookup j s.leases ≡ some l) × (¬ IsReaped node_id now j l))
  reap_expired_leases-IsReaped j l h =
      rw (lookup-reap_expired_leases j h) (survivor-IsReaped node_id now j (lookup j s.leases) l)

  pub generation-reap_expired_leases :
      (reap_expired_leases s now node_id).0.generation ≡ s.generation
  unfolding reap_expired_leases
  generation-reap_expired_leases = (reap_items-keeps now node_id s.leases s).0

  pub reap_expired_leases-NodupKeys :
      NodupKeys s.leases → NodupKeys (reap_expired_leases s now node_id).0.leases
  unfolding reap_expired_leases
  reap_expired_leases-NodupKeys h = reap_items-NodupKeys now node_id s.leases s h

-- The active leases are those that are there and have not expired.
pub lookup-active_items :
    (d : Dict Lease) (now : Instant) (j : String)
    → NodupKeys d
    → lookup j (active_items d now) ≡ survivor none now j (lookup j d)
unfolding active_items lookup
lookup-active_items [] now j h = refl
lookup-active_items ((k, l) ∷ d) now j h =
    ground (arith, eq_iff k j, lookup-active_items d now j h.1)

v2-ne-v1 : ◌≢◌ {A = String} "codex_fleet_leases.v2" "codex_fleet_leases.v1"
v2-ne-v1 = ground (arith, eq_iff "codex_fleet_leases.v2" "codex_fleet_leases.v1")

module _ (is_uuid : String → Bool) where
  -- What is written is valid, has mode 0600, and is the store itself.
  pub write_lease_store-eq-ok :
      (s : LeaseStore) (file : StoreFile)
      → write_lease_store is_uuid s ≡ ok file
      → (file ≡ stored 0o600 s) × IsValid s × (validate_lease_store is_uuid s ≡ ok s)
  unfolding write_lease_store
  write_lease_store-eq-ok s file h = elim (Result-cases (validate_lease_store is_uuid s)) [
    | inl (v, valid) ↦
        let e = validate_lease_store-eq-ok is_uuid s v valid in
        (
          ground (arith, valid, e),
          validate_lease_store-IsValid is_uuid s v valid,
          ground (arith, valid, e),
        )
    | inr (e, bad) ↦ absurd (ground (arith, bad))
  ]

  -- What is read is valid.
  pub read_lease_store-IsValid :
      (file : StoreFile) (s : LeaseStore) → read_lease_store is_uuid file ≡ ok s → IsValid s
  unfolding read_lease_store lookup
  read_lease_store-IsValid missing s h =
      subst IsValid (ok-injective h)
        (record { schema = refl; bounded = omega arith; at_key = λ k l e. absurd (cc) })
  read_lease_store-IsValid (stored mode payload) s h = elim (Result-cases (upgrade payload)) [
    | inl (u, e) ↦
        let valid : validate_lease_store is_uuid u ≡ ok s = ground (arith, e) in
        subst IsValid (sym (validate_lease_store-eq-ok is_uuid u s valid))
          (validate_lease_store-IsValid is_uuid u s valid)
    | inr (e, bad) ↦ absurd (ground (arith, bad))
  ]

  -- A store that is written is read back as it was.
  pub read-write_lease_store :
      (s : LeaseStore) (file : StoreFile)
      → write_lease_store is_uuid s ≡ ok file
      → read_lease_store is_uuid file ≡ ok s
  unfolding read_lease_store upgrade
  read-write_lease_store s file h =
      let (at, valid, again) = write_lease_store-eq-ok s file h in
      rw at (ground (arith, valid.schema, again, eq_iff s.schema "codex_fleet_leases.v1", v2-ne-v1))
