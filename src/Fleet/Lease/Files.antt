-- ===== src/Fleet/Lease/Files.antt =====
-- The transactions over the file of the store: what each that succeeds has done.
use opl_flow.Base.{
  String, Bool, ◌≡◌, sym, ◌∙◌, Option, List, [], ◌∷◌, ◌+◌, ◌≤◌, arith, ◌⊎◌, inl, inr, ok,
  Result-cases, ok-injective,
}
use opl_flow.Base.Int.{ℤ}
use opl_flow.Base.Dict.{NodupKeys}
use opl_flow.Fleet.Common.{normalize_node_id}
use opl_flow.Fleet.Lease.Data.{Instant, Lease, LeaseStore, StoreFile}
use opl_flow.Fleet.Lease.Store.{read_lease_store, reap_expired_leases}
use opl_flow.Fleet.Lease.Reaping.{
  read-write_lease_store, generation-reap_expired_leases, reap_expired_leases-NodupKeys,
}
use opl_flow.Fleet.Lease.Records.{
  acquire_in, renew_in, release_in, acquire_lease_record, renew_lease_record, release_lease_record,
  fleet_lease_reap, write_if_reaped, normalize_option,
}
use opl_flow.Fleet.Lease.Requests.{AcquireRequest, Credential}
use opl_flow.Fleet.Lease.Transactions.{
  Puts, Takes, normalize_node_id_nonempty, acquire_in-Puts, renew_in-Puts, release_in-Takes,
}
use opl_flow.Fleet.Lease.Fencing.{Within, reap-Within}

module _ (is_uuid : String → Bool) where
  -- An acquire that succeeds gives its node a lease whose generation is one more than the
  -- counter was, and leaves the leases of all other nodes as they were.
  pub acquire_lease_record-Puts :
      (r : AcquireRequest) (now : Instant) (file file' : StoreFile) (s : LeaseStore) (l : Lease)
      → read_lease_store is_uuid file ≡ ok s
      → NodupKeys s.leases
      → acquire_lease_record is_uuid r now file ≡ ok (l, file')
      → (node : String) × (t : LeaseStore) × (normalize_node_id r.node_id ≡ ok node)
        × Puts s node l t
        × (read_lease_store is_uuid file' ≡ ok t)
  unfolding acquire_lease_record
  acquire_lease_record-Puts r now file file' s l reads unique h =
      elim (Result-cases (normalize_node_id r.node_id)) [
        | inr (x, e) ↦ absurd (ground (arith, e))
        | inl (node, e) ↦ elim (Result-cases (acquire_in is_uuid r node now s)) [
          | inr (x, bad) ↦ absurd (ground (arith, e, bad))
          | inl ((m, t), done) ↦
              let same : m ≡ l = ground (arith, e, done) in
              (
                node,
                t,
                e,
                acquire_in-Puts is_uuid r node now s t l (ground (arith, done, same))
                    (normalize_node_id_nonempty r.node_id node e) unique,
                read-write_lease_store is_uuid t file' (ground (arith, e, done)),
              )
        ]
      ]

  -- A renewal that succeeds keeps the lease at its node under a new generation, one more than the
  -- counter was, and leaves the leases of all other nodes as they were.
  pub renew_lease_record-Puts :
      (c : Credential) (ttl : ℤ) (phase : Option String) (nonce : String) (now : Instant)
      (file file' : StoreFile) (s : LeaseStore) (l : Lease)
      → read_lease_store is_uuid file ≡ ok s
      → renew_lease_record is_uuid c ttl phase nonce now file ≡ ok (l, file')
      → (node : String) × (t : LeaseStore) × (normalize_node_id c.node_id ≡ ok node)
        × (renew_in is_uuid c node ttl phase nonce now s ≡ ok (l, t))
        × Puts s node l t
        × (read_lease_store is_uuid file' ≡ ok t)
  unfolding renew_lease_record
  renew_lease_record-Puts c ttl phase nonce now file file' s l reads h =
      elim (Result-cases (normalize_node_id c.node_id)) [
        | inr (x, e) ↦ absurd (ground (arith, e))
        | inl (node, e) ↦ elim (Result-cases (renew_in is_uuid c node ttl phase nonce now s)) [
          | inr (x, bad) ↦ absurd (ground (arith, e, bad))
          | inl ((m, t), done) ↦
              let same : m ≡ l = ground (arith, e, done) in
              let whole : renew_in is_uuid c node ttl phase nonce now s ≡ ok (l, t) =
                ground (arith, done, same) in
              (
                node,
                t,
                e,
                whole,
                renew_in-Puts is_uuid c node ttl phase nonce now s t l whole,
                read-write_lease_store is_uuid t file' (ground (arith, e, done)),
              )
        ]
      ]

  -- A release that succeeds takes the lease from its node, counts up by one, and leaves the
  -- leases of all other nodes as they were.
  pub release_lease_record-Takes :
      (c : Credential) (now : Instant) (file file' : StoreFile) (s : LeaseStore) (l : Lease)
      → read_lease_store is_uuid file ≡ ok s
      → release_lease_record is_uuid c now file ≡ ok (l, file')
      → (node : String) × (t : LeaseStore) × (normalize_node_id c.node_id ≡ ok node)
        × Takes s node l t
        × (read_lease_store is_uuid file' ≡ ok t)
  unfolding release_lease_record
  release_lease_record-Takes c now file file' s l reads h =
      elim (Result-cases (normalize_node_id c.node_id)) [
        | inr (x, e) ↦ absurd (ground (arith, e))
        | inl (node, e) ↦ elim (Result-cases (release_in is_uuid c node now s)) [
          | inr (x, bad) ↦ absurd (ground (arith, e, bad))
          | inl ((m, t), done) ↦
              let same : m ≡ l = ground (arith, e, done) in
              (
                node,
                t,
                e,
                release_in-Takes is_uuid c node now s t l (ground (arith, done, same)),
                read-write_lease_store is_uuid t file' (ground (arith, e, done)),
              )
        ]
      ]

  write_if_reaped-cases :
      (ls : List Lease) (t : LeaseStore) (file file' : StoreFile)
      → write_if_reaped is_uuid ls t file ≡ ok file'
      → (file' ≡ file)
        ⊎ (read_lease_store is_uuid file' ≡ ok (record t { generation = t.generation + 1 }))
  unfolding write_if_reaped
  write_if_reaped-cases [] t file file' h = inl (sym (ok-injective h))
  write_if_reaped-cases (l ∷ ls) t file file' h =
      inr (read-write_lease_store is_uuid (record t { generation = t.generation + 1 }) file' h)

  -- A reap leaves the file alone, or writes the store without the leases that went.
  pub fleet_lease_reap-Within :
      (node_id : Option String) (now : Instant) (file file' : StoreFile) (s : LeaseStore)
      (ls : List Lease)
      → read_lease_store is_uuid file ≡ ok s
      → NodupKeys s.leases
      → fleet_lease_reap is_uuid node_id now file ≡ ok (ls, file')
      → (file' ≡ file)
        ⊎ ((t : LeaseStore) × Within s t
            × (s.generation ≤ t.generation)
            × NodupKeys t.leases
            × (read_lease_store is_uuid file' ≡ ok t))
  unfolding fleet_lease_reap
  fleet_lease_reap-Within node_id now file file' s ls reads unique h =
      elim (Result-cases (normalize_option node_id)) [
        | inr (x, e) ↦ absurd (ground (arith, e))
        | inl (n, e) ↦
            let (swept, gone) = reap_expired_leases s now n in
            elim (Result-cases (write_if_reaped is_uuid gone swept file)) [
              | inr (x, bad) ↦ absurd (ground (arith, e, bad))
              | inl (f, wrote) ↦
                  let same : f ≡ file' = ground (arith, e, wrote) in
                  elim (write_if_reaped-cases gone swept file f wrote) [
                    | inl kept ↦ inl (sym same ∙ kept)
                    | inr read ↦ inr (
                      record swept { generation = swept.generation + 1 },
                      reap-Within s now n unique,
                      omega (arith, generation-reap_expired_leases s now n),
                      reap_expired_leases-NodupKeys s now n unique,
                      rw (← same) read,
                    )
                  ]
            ]
      ]
