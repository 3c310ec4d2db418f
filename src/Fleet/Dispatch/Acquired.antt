-- ===== src/Fleet/Dispatch/Acquired.antt =====
-- What an acquisition of a dispatch has done, and why it chose its node.
use opl_flow.Base.{
  String, Bool, true, false, ◌≡◌, refl, ap, inl, inr, some, List, [], ◌∷◌, ◌++◌, All, arith, member,
  is_ok, ok, Result-cases, Bool-cases,
}
use opl_flow.Base.Results.{Result}
use opl_flow.Base.Dict.{NodupKeys}
use opl_flow.Fleet.Common.{FleetError, normalize_node_id}
use opl_flow.Fleet.Lease.Data.{Lease, LeaseStore, StoreFile}
use opl_flow.Fleet.Lease.Store.{read_lease_store}
use opl_flow.Fleet.Lease.Transactions.{Puts}
use opl_flow.Fleet.Lease.Files.{acquire_lease_record-Puts}
use opl_flow.Fleet.Admission.Doctor.{
  DoctorReadback, assert_lease_admission, build_admission_receipt,
}
use opl_flow.Fleet.Admission.Sound.{Admits, build_admission_receipt-Admits}
use opl_flow.Fleet.Selection.{Selected}
use opl_flow.Fleet.Dispatch.Request.{Request}
use opl_flow.Fleet.Dispatch.Candidates.{Catalog, requirement_of, dispatch_candidates}
use opl_flow.Fleet.Dispatch.Acquire.{
  AcquireArgs, Admitted, candidate_role, admission_view, admit, first_admitted, acquire_request,
  leased_adapters, check_route, fleet_acquire, fleet_dispatch_acquire,
}

module _ (casefold : String → String) (r : Request) (c : Catalog)
    (doctor : String → Result FleetError DoctorReadback) where
  -- The list is a part whose candidates all fail the gate, and then one that passes it.
  pub record FirstOf (xs : List Selected) (p : Admitted) : Type 0 where
    pub before : List Selected
    pub here : Selected
    pub after : List Selected
    pub split : xs ≡ before ++ (here ∷ after)
    pub refused : All (λ x. is_ok (admit casefold r c doctor x.node_id) ≡ false) before
    pub passes : admit casefold r c doctor here.node_id ≡ ok p

  first_admitted-FirstOf :
      (xs : List Selected) (p : Admitted)
      → first_admitted casefold r c doctor xs ≡ ok p
      → FirstOf xs p
  unfolding first_admitted
  first_admitted-FirstOf [] p h = absurd (ground arith)
  first_admitted-FirstOf (x ∷ xs) p h = elim (Result-cases (admit casefold r c doctor x.node_id)) [
    | inl (q, e) ↦ record {
      before = [];
      here = x;
      after = xs;
      split = refl;
      refused = tt;
      passes = ground (arith, e);
    }
    | inr (e, bad) ↦
        let k = first_admitted-FirstOf xs p (ground (arith, bad)) in
        record {
          before = x ∷ k.before;
          here = k.here;
          after = k.after;
          split = ap (λ l. x ∷ l) k.split;
          refused = (ground (arith, bad), k.refused);
          passes = k.passes;
        }
  ]

  admit-Admits :
      (node : String) (p : Admitted)
      → admit casefold r c doctor node ≡ ok p
      → (p.node_id ≡ node) × Admits p.view (requirement_of r) p.admission
  unfolding admit
  admit-Admits node p h = elim (Result-cases (candidate_role r node c.registry)) [
    | inr (e, bad) ↦ absurd (ground (arith, bad))
    | inl (role, e1) ↦ elim (Result-cases (doctor node)) [
      | inr (e, bad) ↦ absurd (ground (arith, e1, bad))
      | inl (d, e2) ↦ elim (Result-cases (admission_view casefold r c node d)) [
        | inr (e, bad) ↦ absurd (ground (arith, e1, e2, bad))
        | inl (view, e3) ↦
            elim (Result-cases (assert_lease_admission casefold view (requirement_of r))) [
              | inr (e, bad) ↦ absurd (ground (arith, e1, e2, e3, bad))
              | inl (t, e4) ↦
                  elim (Result-cases (build_admission_receipt view (requirement_of r))) [
                    | inr (e, bad) ↦ absurd (ground (arith, e1, e2, e3, e4, bad))
                    | inl (m, e5) ↦
                        let same : record {
                          node_id = node;
                          role = role;
                          view = view;
                          admission = m;
                        }
                            ≡ p =
                          ground (arith, e1, e2, e3, e4, e5) in
                        rw (← same) (
                          refl,
                          build_admission_receipt-Admits casefold view (requirement_of r) m {t = t}
                              e4 e5,
                        )
                  ]
            ]
      ]
    ]
  ]

  -- An acquisition for the request has leased the first candidate that passes the gate.
  pub record Acquires (is_uuid : String → Bool) (s : LeaseStore) (l : Lease) (file' : StoreFile)
      : Type 0 where
    pub routed : member r.adapter leased_adapters ≡ true
    pub candidates : List Selected
    pub planned : dispatch_candidates is_uuid casefold r c ≡ ok candidates
    pub chosen : Admitted
    pub first : FirstOf candidates chosen
    pub admits : Admits chosen.view (requirement_of r) chosen.admission
    pub store : LeaseStore
    pub node : String
    pub normal : normalize_node_id chosen.node_id ≡ ok node
    pub puts : Puts s node l store
    pub reads : read_lease_store is_uuid file' ≡ ok store

  check_route-member :
      (adapter : String) {t : Unit {0}}
      → check_route adapter ≡ ok t
      → member adapter leased_adapters ≡ true
  check_route-member adapter h = elim (Bool-cases (member adapter leased_adapters)) [
    | inl routed ↦ routed
    | inr other ↦ absurd (ground (arith, other))
  ]

  fleet_acquire-Acquires :
      (is_uuid : String → Bool) (a : AcquireArgs) (file file' : StoreFile) (s : LeaseStore)
      (l : Lease)
      → read_lease_store is_uuid file ≡ ok s
      → NodupKeys s.leases
      → fleet_acquire is_uuid casefold r a c doctor file ≡ ok (l, file')
      → Acquires is_uuid s l file'
  unfolding fleet_acquire acquire_request
  fleet_acquire-Acquires is_uuid a file file' s l reads unique h =
      elim (Result-cases (check_route r.adapter)) [
        | inr (e, bad) ↦ absurd (ground (arith, bad))
        | inl (t, routed) ↦ elim (Result-cases (dispatch_candidates is_uuid casefold r c)) [
          | inr (e, bad) ↦ absurd (ground (arith, routed, bad))
          | inl (xs, planned) ↦ elim (Result-cases (first_admitted casefold r c doctor xs)) [
            | inr (e, bad) ↦ absurd (ground (arith, routed, planned, bad))
            | inl (p, e) ↦
                let first = first_admitted-FirstOf xs p e in
                let (_, admits) = admit-Admits first.here.node_id p first.passes in
                let (node, u, normal, puts, again) =
                  acquire_lease_record-Puts is_uuid (acquire_request r a p) a.acquired_at file file'
                    s l reads unique (ground (arith, routed, planned, e)) in
                record {
                  routed = check_route-member r.adapter {t = t} routed;
                  candidates = xs;
                  planned = planned;
                  chosen = p;
                  first = first;
                  admits = admits;
                  store = u;
                  node = node;
                  normal = normal;
                  puts = puts;
                  reads = again;
                }
          ]
        ]
      ]

  -- An acquisition that returns a lease is for an adapter that leases nodes. It has put the lease in
  -- the store at the node of the first candidate that passes the gate: all candidates before it in the
  -- order of the selection fail, it meets the requirement of the request, and every other node keeps
  -- what it had.
  pub fleet_dispatch_acquire-Acquires :
      (is_uuid : String → Bool) (a : AcquireArgs) (file file' : StoreFile) (s : LeaseStore)
      (l : Lease)
      → read_lease_store is_uuid file ≡ ok s
      → NodupKeys s.leases
      → fleet_dispatch_acquire is_uuid casefold r a c doctor file ≡ ok (some l, file')
      → Acquires is_uuid s l file'
  unfolding fleet_dispatch_acquire
  fleet_dispatch_acquire-Acquires is_uuid a file file' s l reads unique h =
      elim (Result-cases (fleet_acquire is_uuid casefold r a c doctor file)) [
        | inr (e, bad) ↦ absurd (ground (arith, bad))
        | inl ((m, written), e) ↦
            let is_lease : m ≡ l = ground (arith, e) in
            let is_file : written ≡ file' = ground (arith, e) in
            fleet_acquire-Acquires is_uuid a file file' s l reads unique
              (rw (← is_lease, ← is_file) e)
      ]
