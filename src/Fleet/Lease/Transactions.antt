-- ===== src/Fleet/Lease/Transactions.antt =====
-- What the transactions on the lease store do to it, one record for each, in terms of the map from
-- nodes to leases and the generation counter.
use opl_flow.Base.{
  ap, ℕ, String, Bool, true, false, ◌≡◌, Option, none, some, ◌==◌, ◌+◌, arith, eq_iff, eq_refl,
  Bool-cases, Option-cases, inl, inr, ok, Result-cases,
}
use opl_flow.Base.Int.{ℤ}
use opl_flow.Base.Dict.{
  NodupKeys, lookup, insert, lookup-insert, lookup-erase, insert-NodupKeys, erase-NodupKeys,
}
use opl_flow.Fleet.Common.{is_node_id, normalize_node_id}
use opl_flow.Fleet.Lease.Data.{Instant, Lease, LeaseStore}
use opl_flow.Fleet.Lease.Validate.{validate_lease, validate_ttl}
use opl_flow.Fleet.Lease.Store.{audit_lease, reap_expired_leases}
use opl_flow.Fleet.Lease.Sound.{validate_lease-eq-ok}
use opl_flow.Fleet.Lease.Reaping.{
  lookup-reap_expired_leases, generation-reap_expired_leases, reap_expired_leases-NodupKeys,
}
use opl_flow.Fleet.Lease.Records.{
  acquire_in, renew_in, release_in, assert_lease_cas, next_phase, bad_transition, renewed_lease,
}
use opl_flow.Fleet.Lease.Requests.{AcquireRequest, Credential, build_lease, make_room, lease_fields}

pub normalize_node_id_nonempty : (v n : String) → normalize_node_id v ≡ ok n → (n == "") ≡ false
unfolding normalize_node_id is_node_id
normalize_node_id_nonempty v n h = elim (Bool-cases (n == "")) [
  | inl e ↦
      let matched : is_node_id n ≡ true = ground arith in
      cc (matched, ap is_node_id ((eq_iff n "").0 e))
  | inr e ↦ e
]

-- A lease is put at a node: the counter goes up by one and numbers the lease, and every other
-- node keeps what it has.
pub record Puts (before : LeaseStore) (node : String) (l : Lease) (after : LeaseStore)
    : Type 0 where
  pub counted : after.generation ≡ before.generation + 1
  pub numbered : l.generation ≡ after.generation
  pub held : lookup node after.leases ≡ some l
  pub nodup : NodupKeys before.leases → NodupKeys after.leases
  pub others : (k : String) → (node == k) ≡ false → lookup k after.leases ≡ lookup k before.leases

-- A lease is taken from a node.
pub record Takes (before : LeaseStore) (node : String) (l : Lease) (after : LeaseStore)
    : Type 0 where
  pub counted : after.generation ≡ before.generation + 1
  pub was : lookup node before.leases ≡ some l
  pub free : lookup node after.leases ≡ none
  pub nodup : NodupKeys before.leases → NodupKeys after.leases
  pub others : (k : String) → (node == k) ≡ false → lookup k after.leases ≡ lookup k before.leases

module _ (is_uuid : String → Bool) where
  build_lease-generation :
      (r : AcquireRequest) (g : ℕ) (now : Instant) (l : Lease)
      → build_lease is_uuid r g now ≡ ok l
      → l.generation ≡ g
  unfolding build_lease
  build_lease-generation r g now l h = elim (Result-cases (lease_fields r g now)) [
    | inl (x, e) ↦
        let numbered : x.generation ≡ g = unfold lease_fields in ground (arith, e) in
        ground (arith, e, validate_lease-eq-ok is_uuid x l, numbered)
    | inr (x, e) ↦ absurd (ground (arith, e))
  ]

  make_room-lookup :
      (r : AcquireRequest) (node : String) (now : Instant) (s t : LeaseStore)
      → make_room r node now s (lookup node s.leases) ≡ ok t
      → (t.generation ≡ s.generation)
        × ((k : String) → (node == k) ≡ false → lookup k t.leases ≡ lookup k s.leases)
        × (NodupKeys s.leases → NodupKeys t.leases)
  unfolding make_room audit_lease
  make_room-lookup r node now s t h = elim (Option-cases (lookup node s.leases)) [
    | inl free ↦ (ground (arith, free), λ k n. ground (arith, free), λ d. ground (arith, free))
    | inr (l, held) ↦ (
      ground (arith, held),
      λ k n. ground (arith, held, lookup-erase k node s.leases),
      λ d. ground (arith, held, erase-NodupKeys node s.leases d),
    )
  ]

  pub release_in-Takes :
      (c : Credential) (node : String) (now : Instant) (s t : LeaseStore) (l : Lease)
      → release_in is_uuid c node now s ≡ ok (l, t)
      → Takes s node l t
  unfolding release_in assert_lease_cas audit_lease
  release_in-Takes c node now s t l h = elim (Option-cases (lookup node s.leases)) [
    | inl free ↦ absurd (ground (arith, free))
    | inr (m, held) ↦ record {
      counted = ground (arith, held);
      was = ground (arith, held);
      free = ground (arith, held, lookup-erase node node s.leases, eq_refl node);
      nodup = λ d. ground (arith, held, erase-NodupKeys node s.leases d);
      others = λ k n. ground (arith, held, lookup-erase k node s.leases);
    }
  ]

  pub renew_in-validate :
      (c : Credential) (node : String) (ttl : ℤ) (phase : Option String) (nonce : String)
      (now : Instant) (s t : LeaseStore) (l : Lease)
      → renew_in is_uuid c node ttl phase nonce now s ≡ ok (l, t)
      → (m : Lease) × (lookup node s.leases ≡ some m)
        × (assert_lease_cas (some m) c now ≡ ok m)
        × (bad_transition m.phase (next_phase phase m) ≡ false)
        × (validate_ttl ttl ≡ ok ttl)
        × (l ≡ renewed_lease m (s.generation + 1) nonce (next_phase phase m) now ttl)
        × (t
            ≡ audit_lease
                (record s { generation = s.generation + 1; leases = insert node l s.leases })
                "renew"
                l
                now
                "owner-renewed")
  unfolding renew_in assert_lease_cas validate_ttl
  renew_in-validate c node ttl phase nonce now s t l h =
      elim (Option-cases (lookup node s.leases)) [
        | inl free ↦ absurd (ground (arith, free))
        | inr (m, held) ↦
            let v = renewed_lease m (s.generation + 1) nonce (next_phase phase m) now ttl in
            elim (Result-cases (validate_lease is_uuid v)) [
              | inl (w, e) ↦
                  let same = validate_lease-eq-ok is_uuid v w e in
                  (
                    m,
                    held,
                    ground (arith, held),
                    ground (arith, held),
                    ground (arith, held),
                    ground (arith, held, e, same),
                    ground (arith, held, e, same),
                  )
              | inr (x, e) ↦ absurd (ground (arith, held, e))
            ]
      ]

  pub renew_in-Puts :
      (c : Credential) (node : String) (ttl : ℤ) (phase : Option String) (nonce : String)
      (now : Instant) (s t : LeaseStore) (l : Lease)
      → renew_in is_uuid c node ttl phase nonce now s ≡ ok (l, t)
      → Puts s node l t
  unfolding audit_lease
  renew_in-Puts c node ttl phase nonce now s t l h =
      let (m, held, cas, move, fits, renewed, written) =
        renew_in-validate c node ttl phase nonce now s t l h in
      record {
        counted = ground (arith, written);
        numbered = ground (arith, renewed, written);
        held = ground (arith, written, lookup-insert node node l s.leases, eq_refl node);
        nodup = λ d. ground (arith, written, insert-NodupKeys node l s.leases d);
        others = λ k n. ground (arith, written, lookup-insert k node l s.leases);
      }

  pub acquire_in-Puts :
      (r : AcquireRequest) (node : String) (now : Instant) (s t : LeaseStore) (l : Lease)
      → acquire_in is_uuid r node now s ≡ ok (l, t)
      → (node == "") ≡ false
      → NodupKeys s.leases
      → Puts s node l t
  unfolding acquire_in audit_lease
  acquire_in-Puts r node now s t l h named nodup =
      let reaped = (reap_expired_leases s now (some node)).0 in
      let count = generation-reap_expired_leases s now (some node) in
      elim (Result-cases (make_room r node now reaped (lookup node reaped.leases))) [
        | inl (u, e) ↦
            let (kept, rest, unique) = make_room-lookup r node now reaped u e in
            let numbered =
              build_lease-generation (record r { node_id = node }) (u.generation + 1) now l in
            record {
              counted = ground (arith, e, kept, count);
              numbered = ground (arith, e, numbered);
              held = ground (arith, e, lookup-insert node node l u.leases, eq_refl node);
              nodup = λ d. ground (
                arith,
                e,
                insert-NodupKeys node l u.leases
                    (unique (reap_expired_leases-NodupKeys s now (some node) d)),
              );
              others = λ k n. ground (
                arith,
                e,
                lookup-insert k node l u.leases,
                rest k,
                lookup-reap_expired_leases s now (some node) k,
                eq_iff node k,
                eq_iff k node,
              );
            }
        | inr (x, e) ↦ absurd (ground (arith, e))
      ]
