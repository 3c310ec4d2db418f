-- ===== src/Fleet/Lease/Records.antt =====
-- The transactions of fleet_lease.py on the lease store: acquire, renew, release, and the reap of
-- fleet_cli.py. Each runs under the exclusive lock of the store: it reads the file, and writes it
-- as its last step. The drawn values (`uuid.uuid4`, `secrets.token_hex`) and the clock are arguments.
use opl_flow.Base.{
  ℕ, String, Bool, true, not, ◌&&◌, ◌||◌, Option, none, some, List, [], ◌∷◌, ◌==◌, ◌+◌, member, eqb,
  if◌then◌else◌, ok, err, raise_if, ◌>>=◌, ◌>>◌,
}
use opl_flow.Base.Results.{Result}
use opl_flow.Base.Int.{ℤ, pos, ltb_ℤ}
use opl_flow.Base.Dict.{lookup, insert, erase}
use opl_flow.Fleet.Common.{
  FleetError, priority_out_of_range, cas_mismatch, no_active_lease, lease_expired, owner_mismatch,
  phase_transition_invalid, lease_phases, normalize_node_id,
}
use opl_flow.Fleet.Lease.Data.{Instant, Lease, LeaseStore, StoreFile}
use opl_flow.Fleet.Lease.Validate.{validate_owner_id, validate_ttl, validate_lease}
use opl_flow.Fleet.Lease.Store.{
  read_lease_store, write_lease_store, lease_is_expired, audit_lease, reap_expired_leases,
}
use opl_flow.Fleet.Lease.Requests.{
  AcquireRequest, Credential, build_lease, deadline, make_room, text_or,
}

module _ (is_uuid : String → Bool) where
  -- the store that `acquire_lease_record` writes, and its lease
  unfoldable pub acquire_in :
      AcquireRequest → String → Instant → LeaseStore → Result FleetError (Lease × LeaseStore)
  acquire_in r node_id now store = do
    let reaped = (reap_expired_leases store now (some node_id)).0
    cleared ← make_room r node_id now reaped (lookup node_id reaped.leases)
    let generation = cleared.generation + 1
    lease ← build_lease is_uuid (record r { node_id = node_id }) generation now
    ok (
      lease,
      audit_lease
          (record cleared { generation = generation; leases = insert node_id lease cleared.leases })
          "acquire" lease now "controller-admitted",
    )

  unfoldable pub acquire_lease_record :
      AcquireRequest → Instant → StoreFile → Result FleetError (Lease × StoreFile)
  acquire_lease_record r now file = do
    node_id ← normalize_node_id r.node_id
    raise_if (ltb_ℤ r.priority (pos 0) || ltb_ℤ (pos 1000) r.priority) priority_out_of_range
    store ← read_lease_store is_uuid file
    (lease, written) ← acquire_in r node_id now store
    file' ← write_lease_store is_uuid written
    ok (lease, file')

-- `secrets.compare_digest` is an equality of texts
unfoldable pub assert_lease_cas : Option Lease → Credential → Instant → Result FleetError Lease
assert_lease_cas none c now = err no_active_lease
assert_lease_cas (some current) c now = do
  raise_if (lease_is_expired current now) lease_expired
  owner ← validate_owner_id (some c.owner_task) true
  raise_if (not (current.owner_task == text_or owner)) owner_mismatch
  raise_if
      (not (current.lease_id == c.lease_id)
        || not (eqb current.generation c.generation)
        || not (current.nonce == c.nonce))
      cas_mismatch
  ok current

-- `phase or current["phase"]`
unfoldable pub next_phase : Option String → Lease → String
next_phase none current = current.phase
next_phase (some phase) current = if phase == "" then current.phase else phase

unfoldable pub bad_transition : String → String → Bool
bad_transition phase next =
    not (member next lease_phases)
    || (phase == "non-interruptible" && not (next == "non-interruptible"))

-- `normalize_node_id(args.node_id) if args.node_id else None`
unfoldable pub normalize_option : Option String → Result FleetError (Option String)
normalize_option none = ok none
normalize_option (some s) = if s == "" then ok none else (do n ← normalize_node_id s; ok (some n))

-- `if reaped:`
unfoldable pub write_if_reaped :
    (String → Bool) → List Lease → LeaseStore → StoreFile → Result FleetError StoreFile
write_if_reaped is_uuid [] s file = ok file
write_if_reaped is_uuid (l ∷ ls) s file =
    write_lease_store is_uuid (record s { generation = s.generation + 1 })

-- the dict that `renew_lease_record` makes
abbrev pub renewed_lease : Lease → ℕ → String → String → Instant → ℤ → Lease
renewed_lease current generation drawn_nonce next now ttl = record current {
  generation = generation;
  nonce = drawn_nonce;
  phase = next;
  expires_at = deadline now ttl;
}

module _ (is_uuid : String → Bool) where
  unfoldable pub renew_in :
      Credential
      → String
      → ℤ
      → Option String
      → String
      → Instant
      → LeaseStore
      → Result FleetError (Lease × LeaseStore)
  renew_in c node_id ttl_seconds phase drawn_nonce now store = do
    current ← assert_lease_cas (lookup node_id store.leases) c now
    let next = next_phase phase current
    raise_if (bad_transition current.phase next) phase_transition_invalid
    let generation = store.generation + 1
    ttl ← validate_ttl ttl_seconds
    renewed ← validate_lease is_uuid (renewed_lease current generation drawn_nonce next now ttl)
    ok (
      renewed,
      audit_lease
          (record store { generation = generation; leases = insert node_id renewed store.leases })
          "renew" renewed now "owner-renewed",
    )

  unfoldable pub renew_lease_record :
      Credential
      → ℤ
      → Option String
      → String
      → Instant
      → StoreFile
      → Result FleetError (Lease × StoreFile)
  renew_lease_record c ttl_seconds phase drawn_nonce now file = do
    node_id ← normalize_node_id c.node_id
    store ← read_lease_store is_uuid file
    (renewed, written) ← renew_in c node_id ttl_seconds phase drawn_nonce now store
    file' ← write_lease_store is_uuid written
    ok (renewed, file')

  unfoldable pub release_in :
      Credential → String → Instant → LeaseStore → Result FleetError (Lease × LeaseStore)
  release_in c node_id now store = do
    current ← assert_lease_cas (lookup node_id store.leases) c now
    ok (
      current,
      audit_lease
          (record store { generation = store.generation + 1; leases = erase node_id store.leases })
          "release" current now "owner-released",
    )

  unfoldable pub release_lease_record :
      Credential → Instant → StoreFile → Result FleetError (Lease × StoreFile)
  release_lease_record c now file = do
    node_id ← normalize_node_id c.node_id
    store ← read_lease_store is_uuid file
    (released, written) ← release_in c node_id now store
    file' ← write_lease_store is_uuid written
    ok (released, file')

  -- The locked part of `fleet_lease_reap`, on the configured controller: the leases that went.
  unfoldable pub fleet_lease_reap :
      Option String → Instant → StoreFile → Result FleetError (List Lease × StoreFile)
  fleet_lease_reap node_id now file = do
    normalized ← normalize_option node_id
    store ← read_lease_store is_uuid file
    let (swept, reaped) = reap_expired_leases store now normalized
    file' ← write_if_reaped is_uuid reaped swept file
    ok (reaped, file')
