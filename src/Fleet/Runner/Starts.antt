-- ===== src/Fleet/Runner/Starts.antt =====
-- What a start of a runner leaves behind, when it ends well and when it fails.
use mathlib.Core.Path.{subst}
use opl_flow.Base.{
  String, Bool, true, ◌≡◌, refl, sym, inl, inr, none, some, arith, ok, err, Result-cases,
  Option-cases,
}
use opl_flow.Base.Results.{Result}
use opl_flow.Base.Int.{ℤ}
use opl_flow.Base.Dict.{NodupKeys, lookup}
use opl_flow.Fleet.Common.{FleetError, normalize_node_id, cleanup_failed}
use opl_flow.Fleet.Lease.Data.{Instant, Admission, Lease, LeaseStore, StoreFile}
use opl_flow.Fleet.Lease.Store.{read_lease_store}
use opl_flow.Fleet.Lease.Validate.{validate_ttl}
use opl_flow.Fleet.Lease.Requests.{build_lease, lease_fields}
use opl_flow.Fleet.Lease.Records.{acquire_lease_record, release_lease_record, acquire_in}
use opl_flow.Fleet.Lease.Transactions.{Puts}
use opl_flow.Fleet.Lease.Files.{acquire_lease_record-Puts, release_lease_record-Takes}
use opl_flow.Fleet.Admission.Roles.{NodeRegistry}
use opl_flow.Fleet.Admission.Verify.{verify_lease_record}
use opl_flow.Fleet.Runner.Control.{GithubState}
use opl_flow.Fleet.Runner.Record.{
  RunnerTransaction, TransactionFile, missing, stored, v1, v2, read_runner_transaction,
  read_content, runner_transaction_from_lease,
}
use opl_flow.Fleet.Runner.Commands.{
  RoleState, StartArgs, StartAnswers, confirm_runner_shutdown, start_request, start_credential,
  start_expectation, startup, start_admission, clean_up, start_recorded, start_leased,
  fleet_runner_start,
}
use opl_flow.Fleet.Runner.Held.{Holds, transaction-fields, lease_at}

-- The state after a start that ends well: a new transaction, for the new lease of its node.
pub record Started (is_uuid : String → Bool) (w w' : RoleState) (s : LeaseStore) (l : Lease)
    (observed : GithubState) : Type 0 where
  pub transaction : RunnerTransaction
  pub store : LeaseStore
  pub fresh : w.transaction ≡ missing
  pub reads : read_lease_store is_uuid w'.store ≡ ok store
  pub unique : NodupKeys store.leases
  pub holds : Holds w' store transaction l
  pub puts : Puts s l.node_id l store
  pub online : observed.online ≡ true

-- The state after a start that fails: as before; without a lease on its node and without a
-- transaction; with a lease that could not be released; or with a transaction and its lease.
pub data FailedStart (is_uuid : String → Bool) (a : StartArgs) (x : StartAnswers) (w w' : RoleState)
    (e : FleetError) : Type 0 where
  unchanged : w' ≡ w → FailedStart is_uuid a x w w' e
  returned :
      w.transaction ≡ missing
      → (store : LeaseStore) (node : String) → normalize_node_id a.binding.node_id ≡ ok node
      → read_lease_store is_uuid w'.store ≡ ok store
      → NodupKeys store.leases
      → lookup node store.leases ≡ none
      → w'.transaction ≡ missing
      → FailedStart is_uuid a x w w' e
  stranded :
      w.transaction ≡ missing
      → (store : LeaseStore) (l : Lease) → read_lease_store is_uuid w'.store ≡ ok store
      → NodupKeys store.leases
      → lookup l.node_id store.leases ≡ some l
      → w'.transaction ≡ missing
      → release_lease_record is_uuid (start_credential a l) x.released_at w'.store ≡ err e
      → FailedStart is_uuid a x w w' e
  recorded :
      w.transaction ≡ missing
      → (store : LeaseStore) (t : RunnerTransaction) (l : Lease)
      → read_lease_store is_uuid w'.store ≡ ok store
      → NodupKeys store.leases
      → Holds w' store t l
      → FailedStart is_uuid a x w w' e

-- the state after a start, for each result of it
abbrev pub StartEnds :
    (String → Bool)
    → StartArgs
    → StartAnswers
    → RoleState
    → RoleState
    → LeaseStore
    → Result FleetError (Lease × GithubState)
    → Type 0
StartEnds is_uuid a x w w' s (ok (l, observed)) = Started is_uuid w w' s l observed
StartEnds is_uuid a x w w' s (err e) = FailedStart is_uuid a x w w' e

module _ (is_uuid : String → Bool) (casefold : String → String) (registry : NodeRegistry) where
  read-fresh :
      (file : TransactionFile) (revision : String) (now : Instant)
      → read_runner_transaction is_uuid file revision now ≡ ok none
      → file ≡ missing
  unfolding read_runner_transaction read_content
  read-fresh missing revision now h = refl
  read-fresh (stored mode (v1 t)) revision now h = absurd (ground arith)
  read-fresh (stored mode (v2 t)) revision now h = absurd (ground arith)

  start_admission-fresh :
      (a : StartArgs) (x : StartAnswers) (w : RoleState) (m : Admission)
      → start_admission is_uuid casefold registry a x w ≡ ok m
      → w.transaction ≡ missing
  unfolding start_admission
  start_admission-fresh a x w m h =
      elim (Result-cases
        (read_runner_transaction is_uuid w.transaction x.read_revision x.read_at)) [
          | inr (e, bad) ↦ absurd (ground (arith, bad))
          | inl (existing, e) ↦
              read-fresh w.transaction x.read_revision x.read_at (elim (Option-cases existing) [
                | inl gone ↦ rw (← gone) e
                | inr (t, there) ↦ absurd (ground (arith, e, there))
              ])
        ]

  startup-online : (x : StartAnswers) (o : GithubState) → startup x ≡ ok o → o.online ≡ true
  unfolding startup
  startup-online x o h = ground arith

  -- what an acquisition leaves
  record Acquired (a : StartArgs) (s : LeaseStore) (l : Lease) (file : StoreFile) : Type 0 where
    store : LeaseStore
    normal : normalize_node_id a.binding.node_id ≡ ok l.node_id
    puts : Puts s l.node_id l store
    reads : read_lease_store is_uuid file ≡ ok store
    unique : NodupKeys store.leases

  acquire-Acquired :
      (a : StartArgs) (x : StartAnswers) (m : Admission) (file file' : StoreFile) (s : LeaseStore)
      (l : Lease)
      → read_lease_store is_uuid file ≡ ok s
      → NodupKeys s.leases
      → acquire_lease_record is_uuid (start_request a x m) x.acquired_at file ≡ ok (l, file')
      → Acquired a s l file'
  acquire-Acquired a x m file file' s l reads unique h =
      let (node, u, normal, puts, again) =
        acquire_lease_record-Puts is_uuid (start_request a x m) x.acquired_at file file' s l reads
          unique h in
      let (named, plain) = lease_at is_uuid file' u node l again puts.held in
      record {
        store = u;
        normal = rw named normal;
        puts = subst (λ k. Puts s k l u) (sym named) puts;
        reads = again;
        unique = puts.nodup unique;
      }

  recorded-Holds :
      (a : StartArgs) (l : Lease) (w : RoleState) (u : LeaseStore) (t : RunnerTransaction)
      → runner_transaction_from_lease a.role a.binding l a.ttl_seconds ≡ ok t
      → lookup l.node_id u.leases ≡ some l
      → Holds (record w { transaction = stored 384 (v2 t) }) u t l
  recorded-Holds a l w u t made held =
      let (node, id, generation, nonce, owner, expiry) =
        transaction-fields a.role a.binding l a.ttl_seconds t made in
      record {
        written = refl;
        leased = rw node held;
        id = id;
        generation = generation;
        nonce = nonce;
        owner = owner;
        expiry = expiry;
      }

  -- a lease that is given back
  release-returned :
      (a : StartArgs) (x : StartAnswers) (w : RoleState) (s : LeaseStore) (l m : Lease)
      (file file' : StoreFile) (q : Acquired a s l file)
      → release_lease_record is_uuid (start_credential a l) x.released_at file ≡ ok (m, file')
      → (u : LeaseStore) × (read_lease_store is_uuid file' ≡ ok u)
        × NodupKeys u.leases
        × (lookup l.node_id u.leases ≡ none)
  release-returned a x w s l m file file' q h =
      let (node, u, normal, took, again) =
        release_lease_record-Takes is_uuid (start_credential a l) x.released_at file file' q.store m
          q.reads h in
      let same : l.node_id ≡ node = ground (arith, normal, q.normal) in
      (u, again, took.nodup q.unique, rw same took.free)

  clean_up-FailedStart :
      (a : StartArgs) (x : StartAnswers) (w w' : RoleState) (s : LeaseStore) (t : RunnerTransaction)
      (l : Lease) (file : StoreFile) (e : FleetError) (r : Result FleetError (Lease × GithubState))
      (q : Acquired a s l file)
      → w.transaction ≡ missing
      → Holds (record { store = file; transaction = stored 384 (v2 t) }) q.store t l
      → clean_up is_uuid casefold registry a x l
          (record { store = file; transaction = stored 384 (v2 t) })
          e
        ≡ (w', r)
      → (e' : FleetError) × (r ≡ err e') × FailedStart is_uuid a x w w' e'
  unfolding clean_up
  clean_up-FailedStart a x w w' s t l file e r q fresh holds h =
      elim (Result-cases (confirm_runner_shutdown x.shutdown)) [
        | inr (e', bad) ↦
            let state : record { store = file; transaction = stored 384 (v2 t) } ≡ w' =
              ground (arith, bad) in
            (
              cleanup_failed e e',
              ground (arith, bad),
              rw (← state) (recorded fresh q.store t l q.reads q.unique holds),
            )
        | inl (down, confirmed) ↦
            elim (Result-cases
              (release_lease_record is_uuid (start_credential a l) x.released_at file)) [
                | inr (e', bad) ↦
                    let state : record { store = file; transaction = stored 384 (v2 t) } ≡ w' =
                      ground (arith, confirmed, bad) in
                    (
                      e',
                      ground (arith, confirmed, bad),
                      rw (← state) (recorded fresh q.store t l q.reads q.unique holds),
                    )
                | inl ((m, file'), released) ↦
                    let (u, again, unique, free) =
                      release-returned a x w s l m file file' q released in
                    let state : record { store = file'; transaction = missing } ≡ w' =
                      ground (arith, confirmed, released) in
                    (
                      e,
                      ground (arith, confirmed, released),
                      rw (← state) (returned fresh u l.node_id q.normal again unique free refl),
                    )
              ]
      ]

  start_recorded-StartEnds :
      (a : StartArgs) (x : StartAnswers) (w w' : RoleState) (s : LeaseStore) (l : Lease)
      (file : StoreFile) (r : Result FleetError (Lease × GithubState)) (q : Acquired a s l file)
      → (z : ℤ) → validate_ttl a.ttl_seconds ≡ ok z
      → w.transaction ≡ missing
      → start_recorded is_uuid casefold registry a x l (record w { store = file }) ≡ (w', r)
      → StartEnds is_uuid a x w w' s r
  unfolding start_recorded
  start_recorded-StartEnds a x w w' s l file r q z fits fresh h =
      elim (Result-cases (runner_transaction_from_lease a.role a.binding l a.ttl_seconds)) [
        | inr (e, bad) ↦ absurd (unfold runner_transaction_from_lease in ground (arith, fits, bad))
        | inl (t, made) ↦
            let holds = recorded-Holds a l (record w { store = file }) q.store t made q.puts.held in
            elim (Result-cases (startup x)) [
              | inl (o, up) ↦
                  let state : record { store = file; transaction = stored 384 (v2 t) } ≡ w' =
                    ground (arith, made, up) in
                  let result : ok (l, o) ≡ r = ground (arith, made, up) in
                  rw (← result, ← state)
                    (record {
                      transaction = t;
                      store = q.store;
                      fresh = fresh;
                      reads = q.reads;
                      unique = q.unique;
                      holds = holds;
                      puts = q.puts;
                      online = startup-online x o up;
                    })
              | inr (e, down) ↦
                  let (e', result, failed) =
                    clean_up-FailedStart a x w w' s t l file e r q fresh holds
                      (ground (arith, made, down)) in
                  rw result failed
            ]
      ]

  start_leased-StartEnds :
      (a : StartArgs) (x : StartAnswers) (w w' : RoleState) (s : LeaseStore) (l : Lease)
      (file : StoreFile) (r : Result FleetError (Lease × GithubState)) (q : Acquired a s l file)
      → (z : ℤ) → validate_ttl a.ttl_seconds ≡ ok z
      → w.transaction ≡ missing
      → start_leased is_uuid casefold registry a x l (record w { store = file }) ≡ (w', r)
      → StartEnds is_uuid a x w w' s r
  unfolding start_leased
  start_leased-StartEnds a x w w' s l file r q z fits fresh h =
      elim (Result-cases
        (verify_lease_record is_uuid l (start_expectation a x l) registry x.verified_at)) [
          | inl (v, verified) ↦
              start_recorded-StartEnds a x w w' s l file r q z fits fresh (ground (arith, verified))
          | inr (e, refused) ↦
              elim (Result-cases
                (release_lease_record is_uuid (start_credential a l) x.released_at file)) [
                  | inl ((m, file'), released) ↦
                      let (u, again, unique, free) =
                        release-returned a x w s l m file file' q released in
                      let state : record w { store = file' } ≡ w' =
                        ground (arith, refused, released) in
                      let result : err e ≡ r = ground (arith, refused, released) in
                      rw (← result, ← state)
                        (returned fresh u l.node_id q.normal again unique free fresh)
                  | inr (e', bad) ↦
                      let state : record w { store = file } ≡ w' = ground (arith, refused, bad) in
                      let result : err e' ≡ r = ground (arith, refused, bad) in
                      rw (← result, ← state)
                        (stranded fresh q.store l q.reads q.unique q.puts.held fresh bad)
                ]
        ]

  acquire-ttl :
      (a : StartArgs) (x : StartAnswers) (m : Admission) (file file' : StoreFile) (l : Lease)
      → acquire_lease_record is_uuid (start_request a x m) x.acquired_at file ≡ ok (l, file')
      → (z : ℤ) × (validate_ttl a.ttl_seconds ≡ ok z)
  unfolding acquire_lease_record acquire_in build_lease lease_fields
  acquire-ttl a x m file file' l h = elim (Result-cases (validate_ttl a.ttl_seconds)) [
    | inl (z, fits) ↦ (z, fits)
    | inr (e, bad) ↦ absurd (ground (arith, bad))
  ]

  -- A start from a lease store that can be read and has no node twice ends in one of these states.
  -- When it succeeds, there was no transaction, a new lease is put in the store at its node with
  -- the other nodes kept, the transaction in the file names that lease with its id, generation,
  -- nonce, owner and end, and the runner was seen online. When it fails, the state is as it was; or
  -- the node has no lease and there is no transaction; or the transaction names the lease, which its
  -- node has; or the node has a lease without a transaction, and the error is that of its release.
  pub fleet_runner_start-StartEnds :
      (a : StartArgs) (x : StartAnswers) (w w' : RoleState) (s : LeaseStore)
      (r : Result FleetError (Lease × GithubState))
      → read_lease_store is_uuid w.store ≡ ok s
      → NodupKeys s.leases
      → fleet_runner_start is_uuid casefold registry a x w ≡ (w', r)
      → StartEnds is_uuid a x w w' s r
  unfolding fleet_runner_start
  fleet_runner_start-StartEnds a x w w' s r reads unique h =
      elim (Result-cases (start_admission is_uuid casefold registry a x w)) [
        | inr (e, refused) ↦
            let result : err e ≡ r = ground (arith, refused) in
            rw (← result) (unchanged (ground (arith, refused)))
        | inl (m, admitted) ↦
            elim (Result-cases
              (acquire_lease_record is_uuid (start_request a x m) x.acquired_at w.store)) [
                | inr (e, refused) ↦
                    let result : err e ≡ r = ground (arith, admitted, refused) in
                    rw (← result) (unchanged (ground (arith, admitted, refused)))
                | inl ((l, file), acquired) ↦
                    let (z, fits) = acquire-ttl a x m w.store file l acquired in
                    start_leased-StartEnds a x w w' s l file r
                      (acquire-Acquired a x m w.store file s l reads unique acquired) z fits
                      (start_admission-fresh a x w m admitted) (ground (arith, admitted, acquired))
              ]
      ]
