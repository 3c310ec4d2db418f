-- ===== src/Fleet/Dispatch/Executed.antt =====
-- What a session that is run has behind it.
use opl_flow.Base.{
  false, ℕ, String, Bool, true, ◌≡◌, refl, sym, ◌∙◌, ap, inl, inr, Option, none, some, List, [],
  ◌∷◌, ◌+◌, ◌*◌, ◌≤◌, ◌==◌, arith, eq_iff, ok, Result-cases, Option-cases, Bool-cases,
}
use opl_flow.Base.Int.{ℤ, pos, pos_part, leb_ℤ, ◌≤ℤ◌}
use opl_flow.Base.Dict.{Dict}
use opl_flow.Base.Results.{Result}
use opl_flow.Fleet.Common.{FleetError, normalize_node_id}
use opl_flow.Json.{Value}
use opl_flow.Fleet.Lease.Data.{
  Instant, Lease, LeaseStore, WorkerBinding, StoreFile, seconds_from, microseconds,
}
use opl_flow.Fleet.Lease.Validate.{validate_owner_id}
use opl_flow.Fleet.Lease.Store.{read_lease_store}
use opl_flow.Fleet.Admission.Roles.{NodeRegistry}
use opl_flow.Fleet.Admission.Verify.{same_option, verify_lease_record}
use opl_flow.Fleet.Admission.Sound.{Verifies, verify_lease_record-Verifies}
use opl_flow.Fleet.Runner.Control.{RunnerRoute, alias_or, is_ssh_alias}
use opl_flow.Fleet.Dispatch.Request.{worker_handoff, binding_of}
use opl_flow.Fleet.Dispatch.Acquire.{lease_of_id, dispatch_lease}
use opl_flow.Fleet.Dispatch.Session.{
  TimeReading, Execution, Transport, Invocation, read_transport, session_invocation,
  execute_ssh_session, validate_execution_argv,
}
use opl_flow.Fleet.Dispatch.Execute.{
  ExecuteArgs, expectation_of, minimum_ttl, same_binding, check_owners, execution_lease,
  execution_readback, fleet_dispatch_execute,
}

pub lease_of_id-lease_id :
    (id : String) (d : Dict Lease) (l : Lease) → lease_of_id id d ≡ some l → l.lease_id ≡ id
unfolding lease_of_id
lease_of_id-lease_id id [] l h = cc
lease_of_id-lease_id id ((k, m) ∷ d) l h = elim (Bool-cases (m.lease_id == id)) [
  | inl same ↦ ground (arith, same, (eq_iff m.lease_id id).0 same)
  | inr other ↦ lease_of_id-lease_id id d l (ground (arith, other))
]

same_binding→eq : (a b : Option WorkerBinding) → same_binding a b ≡ true → a ≡ b
same_binding→eq none none h = refl
same_binding→eq none (some b) h = cc
same_binding→eq (some a) none h = cc
same_binding→eq (some a) (some b) h = ground (
  arith,
  eq_iff a.attempt_id b.attempt_id,
  eq_iff a.objective_id b.objective_id,
  eq_iff a.owner_id b.owner_id,
  eq_iff a.handoff_sha256 b.handoff_sha256,
)

check_owners-task :
    (a : ExecuteArgs) (l : Lease) {t : Unit {0}}
    → check_owners a l ≡ ok t
    → l.owner_task ≡ a.owner_task
unfolding check_owners validate_owner_id same_option
check_owners-task a l h = ground (arith, eq_iff l.owner_task a.owner_task)

-- the term that is asked for leaves the time of the session and the margin
lasts :
    (least timeout : ℤ) (now end : Instant)
    → leb_ℤ (pos 1) timeout ≡ true
    → minimum_ttl least timeout ≤ℤ seconds_from now end
    → now + (pos_part timeout + 30) * microseconds ≤ end
unfolding minimum_ttl seconds_from
lasts least (pos n) now end low h = ground arith
lasts least (ℤ.negsuc n) now end low h = absurd (ground arith)

-- A session has been run under the lease `l`.
pub record RunsUnder (is_uuid : String → Bool) (canonical : String → Option String)
    (size : Value → ℕ) (fingerprint : Value → String) (a : ExecuteArgs) (revision : String)
    (now : Instant) (file : StoreFile) (l : Lease) : Type 0 where
  pub store : LeaseStore
  pub reads : read_lease_store is_uuid file ≡ ok store
  pub named : canonical a.dispatch_id ≡ some l.lease_id
  pub listed : lease_of_id l.lease_id store.leases ≡ some l
  pub adapter : l.dispatch_adapter ≡ "ssh-session"
  pub owner : l.owner_task ≡ a.owner_task
  pub handoff : Option Value
  pub handed : worker_handoff size fingerprint a.handoff (some a.owner_task) ≡ ok handoff
  pub bound : binding_of size fingerprint handoff ≡ ok l.worker_binding
  pub verified :
      Verifies l
        (expectation_of l
          (minimum_ttl a.min_ttl_seconds a.timeout_seconds)
          a.max_admission_age_seconds
          revision
          "ssh-session")
        now
  pub ends : now + (pos_part a.timeout_seconds + 30) * microseconds ≤ l.expires_at

module _ (is_uuid : String → Bool) (canonical : String → Option String) where
  -- the lease that an id of a dispatch names
  pub dispatch_lease-lease_id :
      (dispatch_id : String) (file : StoreFile) (l : Lease)
      → dispatch_lease is_uuid canonical dispatch_id file ≡ ok l
      → (s : LeaseStore) × (read_lease_store is_uuid file ≡ ok s)
        × (canonical dispatch_id ≡ some l.lease_id)
        × (lease_of_id l.lease_id s.leases ≡ some l)
  unfolding dispatch_lease
  dispatch_lease-lease_id dispatch_id file l h = elim (Option-cases (canonical dispatch_id)) [
    | inl bad ↦ absurd (ground (arith, bad))
    | inr (id, named) ↦ elim (Result-cases (read_lease_store is_uuid file)) [
      | inr (e, bad) ↦ absurd (ground (arith, named, bad))
      | inl (s, reads) ↦ elim (Option-cases (lease_of_id id s.leases)) [
        | inl gone ↦ absurd (ground (arith, named, reads, gone))
        | inr (m, listed) ↦
            let same : m ≡ l = ground (arith, named, reads, listed) in
            let is_id : l.lease_id ≡ id = rw (← same) (lease_of_id-lease_id id s.leases m listed) in
            (
              s,
              reads,
              named ∙ ap some (sym is_id),
              ap (λ k. lease_of_id k s.leases) is_id ∙ listed ∙ ap some same,
            )
      ]
    ]
  ]

  module _ (registry : NodeRegistry) (bytes : String → ℕ) (size : Value → ℕ)
      (fingerprint : Value → String) (read_time : Option Value → TimeReading) where
    execution_lease-RunsUnder :
        (a : ExecuteArgs) (revision : String) (now : Instant) (file : StoreFile) (l : Lease)
        (argv : List String)
        → leb_ℤ (pos 1) a.timeout_seconds ≡ true
        → execution_lease is_uuid canonical registry bytes size fingerprint read_time a revision now
            file
          ≡ ok (l, argv)
        → RunsUnder is_uuid canonical size fingerprint a revision now file l
    unfolding execution_lease
    execution_lease-RunsUnder a revision now file l argv low h =
        elim (Result-cases (worker_handoff size fingerprint a.handoff (some a.owner_task))) [
          | inr (e, bad) ↦ absurd (ground (arith, bad))
          | inl (handoff, handed) ↦
              elim (Result-cases (dispatch_lease is_uuid canonical a.dispatch_id file)) [
                | inr (e, bad) ↦ absurd (ground (arith, handed, bad))
                | inl (m, found) ↦ elim (Result-cases (check_owners a m)) [
                  | inr (e, bad) ↦ absurd (ground (arith, handed, found, bad))
                  | inl (t, owned) ↦ elim (Result-cases (binding_of size fingerprint handoff)) [
                    | inr (e, bad) ↦ absurd (ground (arith, handed, found, owned, bad))
                    | inl (supplied, made) ↦
                        let q =
                          expectation_of m (minimum_ttl a.min_ttl_seconds a.timeout_seconds)
                            a.max_admission_age_seconds revision "ssh-session" in
                        elim (Result-cases (verify_lease_record is_uuid m q registry now)) [
                          | inr (e, bad) ↦ absurd (ground (arith, handed, found, owned, made, bad))
                          | inl (v, checked) ↦
                              let same : m ≡ l =
                                ground (arith, handed, found, owned, made, checked) in
                              let bound : same_binding m.worker_binding supplied ≡ true =
                                ground (arith, handed, found, owned, made, checked) in
                              let (s, reads, named, listed) =
                                dispatch_lease-lease_id a.dispatch_id file m found in
                              let verified =
                                verify_lease_record-Verifies is_uuid m q registry now v checked in
                              rw (← same) (record {
                                store = s;
                                reads = reads;
                                named = named;
                                listed = listed;
                                adapter = verified.adapter;
                                owner = check_owners-task a m owned;
                                handoff = handoff;
                                handed = handed;
                                bound =
                                    made
                                    ∙ ap ok (sym (same_binding→eq m.worker_binding supplied bound));
                                verified = verified;
                                ends =
                                    lasts a.min_ttl_seconds a.timeout_seconds now m.expires_at low
                                      verified.lasting;
                              })
                        ]
                  ]
                ]
              ]
        ]

    -- The invocation goes to the node of the lease, with the command, the directory and the timeout that
    -- are given, and what is read back is what is known of its answer.
    pub record RunsAt (a : ExecuteArgs) (routes : String → RunnerRoute)
        (transport : Invocation → Transport) (l : Lease) (i : Invocation)
        (r : Result FleetError (Lease × List String × Execution)) : Type 0 where
      pub node : String
      pub normal : normalize_node_id l.node_id ≡ ok node
      pub remote : (routes node).local ≡ false
      pub host : i.host ≡ some (alias_or (routes node).ssh)
      pub alias : is_ssh_alias (alias_or (routes node).ssh) ≡ true
      pub command : validate_execution_argv bytes size read_time a.argv_json ≡ ok i.argv
      pub directory : i.cwd ≡ a.cwd
      pub timeout : i.timeout_seconds ≡ a.timeout_seconds
      pub answer :
          r
          ≡ execution_readback is_uuid canonical registry bytes size fingerprint read_time l i.argv
              (read_transport bytes size read_time (transport i))

    execution_lease-argv :
        (a : ExecuteArgs) (revision : String) (now : Instant) (file : StoreFile) (l : Lease)
        (argv : List String)
        → execution_lease is_uuid canonical registry bytes size fingerprint read_time a revision now
            file
          ≡ ok (l, argv)
        → validate_execution_argv bytes size read_time a.argv_json ≡ ok argv
    unfolding execution_lease
    execution_lease-argv a revision now file l argv h = ground arith

    -- An invocation that is run, whatever is known of its end and whether it is read back or an error is
    -- raised, is run under the lease that the dispatch id names: one for SSH sessions, of the owner that is
    -- named, bound to the handoff that is given, verified now at the current control commit, and with
    -- an end no earlier than the timeout of the session and 30 seconds more from now. It goes to the
    -- alias of that lease's node, which is not the controller, with the command, the directory and the
    -- timeout that are given.
    pub fleet_dispatch_execute-RunsUnder :
        (a : ExecuteArgs) (revision : String) (now : Instant) (routes : String → RunnerRoute)
        (transport : Invocation → Transport) (file : StoreFile) (i : Invocation)
        (r : Result FleetError (Lease × List String × Execution))
        → fleet_dispatch_execute is_uuid canonical registry bytes size fingerprint read_time a
            revision now routes transport file
          ≡ (some i, r)
        → (l : Lease) × RunsUnder is_uuid canonical size fingerprint a revision now file l
          × RunsAt a routes transport l i r
    unfolding fleet_dispatch_execute execute_ssh_session session_invocation
    fleet_dispatch_execute-RunsUnder a revision now routes transport file i r h =
        elim (Result-cases (
          execution_lease is_uuid canonical registry bytes size fingerprint read_time a revision now
            file)) [
              | inr (e, bad) ↦ absurd (ground (arith, bad))
              | inl ((l, argv), leased) ↦ elim (Bool-cases (leb_ℤ (pos 1) a.timeout_seconds)) [
                | inr bad ↦ absurd (ground (arith, leased, bad))
                | inl low ↦ elim (Result-cases (normalize_node_id l.node_id)) [
                  | inr (e, bad) ↦ absurd (ground (arith, leased, bad))
                  | inl (node, normal) ↦ elim (Bool-cases (routes node).local) [
                    | inl here ↦ absurd (ground (arith, leased, normal, here))
                    | inr remote ↦
                        let made : record {
                          host = some (alias_or (routes node).ssh);
                          argv = argv;
                          cwd = a.cwd;
                          timeout_seconds = a.timeout_seconds;
                        }
                            ≡ i =
                          ground (arith, leased, normal, remote) in
                        (
                          l,
                          execution_lease-RunsUnder a revision now file l argv low leased,
                          rw (← made) (record {
                            node = node;
                            normal = normal;
                            remote = remote;
                            host = refl;
                            alias = ground (arith, leased, normal, remote);
                            command = execution_lease-argv a revision now file l argv leased;
                            directory = refl;
                            timeout = refl;
                            answer = ground (arith, leased, normal, remote, made);
                          }),
                        )
                  ]
                ]
              ]
            ]
