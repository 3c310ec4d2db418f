-- ===== src/Fleet/Lease/Ownership.antt =====
-- Who may take, keep and give up the lease of a node.
use opl_flow.Base.{
  ℕ, String, Bool, true, false, ◌≡◌, Option, none, some, ◌+◌, ◌*◌, ◌≤◌, ◌<◌, arith, eq_iff, inl,
  inr, ok, err, Result-cases, member,
}
use opl_flow.Base.Int.{ℤ, pos, leb_ℤ, ◌≤ℤ◌}
use opl_flow.Base.Dict.{NodupKeys, lookup}
use opl_flow.Fleet.Common.{
  normalize_node_id, node_already_leased, lease_expired, preemptible_workload_classes,
}
use opl_flow.Fleet.Lease.Data.{Instant, Lease, LeaseStore, StoreFile, microseconds}
use opl_flow.Fleet.Lease.Validate.{validate_ttl, validate_owner_id}
use opl_flow.Fleet.Lease.Store.{read_lease_store, lease_is_expired, reap_expired_leases}
use opl_flow.Fleet.Lease.Reaping.{lookup-reap_expired_leases}
use opl_flow.Fleet.Lease.Records.{
  acquire_in, acquire_lease_record, renew_in, renew_lease_record, release_in, release_lease_record,
  assert_lease_cas, next_phase, bad_transition,
}
use opl_flow.Fleet.Lease.Requests.{
  AcquireRequest, Credential, names_any, same_text, same_number, make_room, matches_preempt,
  is_preemptible_by,
}
use opl_flow.Fleet.Lease.Transactions.{renew_in-validate}
use opl_flow.Fleet.Lease.Files.{renew_lease_record-Puts}

-- What a request must say, and what the lease must be like, for the lease to be preempted.
pub record MayPreempt (m : Lease) (r : AcquireRequest) : Type 0 where
  pub names_id : r.preempt_lease_id ≡ some m.lease_id
  pub names_generation : r.preempt_generation ≡ some m.generation
  pub names_nonce : r.preempt_nonce ≡ some m.nonce
  pub preemptible : m.preemptible ≡ true
  pub class : member m.workload_class preemptible_workload_classes ≡ true
  pub interruptible : m.phase ≡ "interruptible"
  pub outranked : leb_ℤ r.priority m.priority ≡ false

same_text-eq : (s : String) (o : Option String) → same_text s o ≡ true → o ≡ some s
same_text-eq s none h = cc
same_text-eq s (some t) h = ground (arith, eq_iff s t)

same_number-eq : (n : ℕ) (o : Option ℕ) → same_number n o ≡ true → o ≡ some n
same_number-eq n none h = cc
same_number-eq n (some m) h = ground arith

module _ (is_uuid : String → Bool) where
  make_room-MayPreempt :
      (r : AcquireRequest) (node : String) (now : Instant) (s t : LeaseStore) (m : Lease)
      → make_room r node now s (some m) ≡ ok t
      → MayPreempt m r
  unfolding make_room matches_preempt is_preemptible_by
  make_room-MayPreempt r node now s t m h =
      let facts : (matches_preempt m r ≡ true) × (is_preemptible_by m r.priority ≡ true) =
        (ground arith, ground arith) in
      record {
        names_id = same_text-eq m.lease_id r.preempt_lease_id (ground (arith, facts));
        names_generation = same_number-eq m.generation r.preempt_generation (ground (arith, facts));
        names_nonce = same_text-eq m.nonce r.preempt_nonce (ground (arith, facts));
        preemptible = ground (arith, facts);
        class = ground (arith, facts);
        interruptible = ground (arith, facts, eq_iff m.phase "interruptible");
        outranked = ground (arith, facts);
      }

  reaped_active :
      (s : LeaseStore) (node : String) (now : Instant) (m : Lease)
      → NodupKeys s.leases
      → lookup node s.leases ≡ some m
      → lease_is_expired m now ≡ false
      → lookup node (reap_expired_leases s now (some node)).0.leases ≡ some m
  reaped_active s node now m unique held active =
      ground (arith, held, lookup-reap_expired_leases s now (some node) node)

  -- An acquire takes the place of an active lease only as a preemption of it: the request names its
  -- id, generation and nonce, it is of a preemptible kind, in its interruptible phase, and of a
  -- lower priority.
  pub acquire_active_needs_preempt :
      (r : AcquireRequest) (now : Instant) (file file' : StoreFile) (s : LeaseStore) (node : String)
      (m l : Lease)
      → read_lease_store is_uuid file ≡ ok s
      → NodupKeys s.leases
      → normalize_node_id r.node_id ≡ ok node
      → lookup node s.leases ≡ some m
      → lease_is_expired m now ≡ false
      → acquire_lease_record is_uuid r now file ≡ ok (l, file')
      → MayPreempt m r
  unfolding acquire_lease_record acquire_in
  acquire_active_needs_preempt r now file file' s node m l reads unique normal held active h =
      let reaped = (reap_expired_leases s now (some node)).0 in
      let there = reaped_active s node now m unique held active in
      elim (Result-cases (make_room r node now reaped (some m))) [
        | inl (u, room) ↦ make_room-MayPreempt r node now reaped u m room
        | inr (e, full) ↦ absurd (ground (arith, there, full))
      ]

  -- A request that names no lease to preempt is refused while the node has an active lease.
  pub acquire_active_refused :
      (r : AcquireRequest) (now : Instant) (file : StoreFile) (s : LeaseStore) (node : String)
      (m : Lease)
      → read_lease_store is_uuid file ≡ ok s
      → NodupKeys s.leases
      → normalize_node_id r.node_id ≡ ok node
      → pos 0 ≤ℤ r.priority
      → r.priority ≤ℤ pos 1000
      → lookup node s.leases ≡ some m
      → lease_is_expired m now ≡ false
      → names_any r ≡ false
      → acquire_lease_record is_uuid r now file ≡ err node_already_leased
  unfolding acquire_lease_record acquire_in make_room
  acquire_active_refused r now file s node m reads unique normal low high held active plain =
      ground (arith, reaped_active s node now m unique held active)

  -- An expired lease can be neither renewed nor released.
  pub expired_refused :
      (c : Credential) (ttl : ℤ) (phase : Option String) (nonce : String) (now : Instant)
      (file : StoreFile) (s : LeaseStore) (node : String) (m : Lease)
      → read_lease_store is_uuid file ≡ ok s
      → normalize_node_id c.node_id ≡ ok node
      → lookup node s.leases ≡ some m
      → m.expires_at ≤ now
      → (renew_lease_record is_uuid c ttl phase nonce now file ≡ err lease_expired)
        × (release_lease_record is_uuid c now file ≡ err lease_expired)
  unfolding renew_lease_record renew_in release_lease_record release_in assert_lease_cas
      lease_is_expired
  expired_refused c ttl phase nonce now file s node m reads normal held late = ground arith

-- What a renewal proves of the caller, keeps of the lease, and changes in it.
pub record Renews (c : Credential) (m l : Lease) (now : Instant) (ttl : ℤ) : Type 0 where
  pub owner : m.owner_task ≡ c.owner_task
  pub id : m.lease_id ≡ c.lease_id
  pub current : m.generation ≡ c.generation
  pub secret : m.nonce ≡ c.nonce
  pub active : now < m.expires_at
  pub same_id : l.lease_id ≡ m.lease_id
  pub same_owner : l.owner_task ≡ m.owner_task
  pub same_class : l.workload_class ≡ m.workload_class
  pub same_priority : l.priority ≡ m.priority
  -- a phase that may not be interrupted is not left
  pub firm : m.phase ≡ "non-interruptible" → l.phase ≡ "non-interruptible"
  pub at_least : now + 60 * microseconds ≤ l.expires_at
  pub at_most : l.expires_at ≤ now + 86400 * microseconds

module _ (is_uuid : String → Bool) where
  renew_in-Renews :
      (c : Credential) (node : String) (ttl : ℤ) (phase : Option String) (nonce : String)
      (now : Instant) (s t : LeaseStore) (l : Lease)
      → renew_in is_uuid c node ttl phase nonce now s ≡ ok (l, t)
      → (m : Lease) × (lookup node s.leases ≡ some m) × Renews c m l now ttl
  unfolding assert_lease_cas lease_is_expired validate_owner_id bad_transition validate_ttl
  renew_in-Renews c node ttl phase nonce now s t l h =
      let (m, held, cas, move, fits, renewed, written) =
        renew_in-validate is_uuid c node ttl phase nonce now s t l h in
      (
        m,
        held,
        ground (
          arith,
          cas,
          move,
          fits,
          renewed,
          eq_iff m.owner_task c.owner_task,
          eq_iff m.lease_id c.lease_id,
          eq_iff m.nonce c.nonce,
          eq_iff m.phase "non-interruptible",
          eq_iff (next_phase phase m) "non-interruptible",
        ),
      )

  -- A renewal that succeeds is by the owner of an active lease who names its id, generation and
  -- nonce; it keeps the id, the owner, the class and the priority, it never leaves the phase that
  -- may not be interrupted, and the new term ends between 60 and 86400 seconds from now.
  pub renew_lease_record-Renews :
      (c : Credential) (ttl : ℤ) (phase : Option String) (nonce : String) (now : Instant)
      (file file' : StoreFile) (s : LeaseStore) (l : Lease)
      → read_lease_store is_uuid file ≡ ok s
      → renew_lease_record is_uuid c ttl phase nonce now file ≡ ok (l, file')
      → (node : String) × (m : Lease) × (normalize_node_id c.node_id ≡ ok node)
        × (lookup node s.leases ≡ some m)
        × Renews c m l now ttl
  renew_lease_record-Renews c ttl phase nonce now file file' s l reads h =
      let (node, t, normal, whole, _, _) =
        renew_lease_record-Puts is_uuid c ttl phase nonce now file file' s l reads h in
      let (m, held, r) = renew_in-Renews c node ttl phase nonce now s t l whole in
      (node, m, normal, held, r)
