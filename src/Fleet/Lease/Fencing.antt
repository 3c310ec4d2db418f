-- ===== src/Fleet/Lease/Fencing.antt =====
-- Generations as fencing tokens: what a change of the store does to the generations of its leases.
use opl_flow.Base.{
  String, Bool, true, false, ◌≡◌, refl, sym, ◌∙◌, Option, none, some, ◌==◌, ◌≤◌, ◌<◌, arith, eq_iff,
  Bool-cases, ◌⊎◌, inl, inr, ok,
}
use opl_flow.Base.Dict.{NodupKeys, lookup}
use opl_flow.Fleet.Lease.Data.{Instant, Lease, LeaseStore, StoreFile, missing, empty_lease_store}
use opl_flow.Fleet.Lease.Store.{read_lease_store, reap_expired_leases}
use opl_flow.Fleet.Lease.Sound.{IsValid}
use opl_flow.Fleet.Lease.Reaping.{survivor, lookup-reap_expired_leases}
use opl_flow.Fleet.Lease.Transactions.{Puts, Takes}

-- No two nodes hold leases of the same generation.
abbrev pub Distinct : LeaseStore → Type 0
Distinct s =
    (j k : String) (l m : Lease)
    → lookup j s.leases ≡ some l
    → lookup k s.leases ≡ some m
    → l.generation ≡ m.generation
    → j ≡ k

-- What the file holds can be read back, and has distinct generations.
pub record IsFenced (is_uuid : String → Bool) (file : StoreFile) (s : LeaseStore) : Type 0 where
  pub readable : read_lease_store is_uuid file ≡ ok s
  pub unique : NodupKeys s.leases
  pub distinct : Distinct s

-- The counter does not go back, and what is new has a generation beyond the old counter.
pub record Follows (s t : LeaseStore) : Type 0 where
  pub counts : s.generation ≤ t.generation
  pub lease :
      (k : String) (x : Lease)
      → lookup k t.leases ≡ some x
      → (lookup k s.leases ≡ some x) ⊎ (s.generation < x.generation)

pub Follows-refl : (s : LeaseStore) → Follows s s
Follows-refl s = record { counts = omega arith; lease = λ k x e. inl e }

pub Follows-trans : (s t u : LeaseStore) → Follows s t → Follows t u → Follows s u
Follows-trans s t u f g = record {
  counts = omega (arith, f.counts, g.counts);
  lease = λ k x e. elim (g.lease k x e) [
    | inl there ↦ f.lease k x there
    | inr new ↦ inr (omega (arith, f.counts))
  ];
}

-- every lease of the second store is in the first
abbrev pub Within : LeaseStore → LeaseStore → Type 0
Within s t = (k : String) (x : Lease) → lookup k t.leases ≡ some x → lookup k s.leases ≡ some x

pub Within-Distinct : (s t : LeaseStore) → Within s t → Distinct s → Distinct t
Within-Distinct s t w d j k x y ej ek same = d j k x y (w j x ej) (w k y ek) same

module _ (s t : LeaseStore) (node : String) (l : Lease) where
  pub Takes-Within : Takes s node l t → Within s t
  Takes-Within p k x e = elim (Bool-cases (node == k)) [
    | inl same ↦ absurd (ground (arith, p.free, e, (eq_iff node k).0 same))
    | inr other ↦ sym (p.others k other) ∙ e
  ]

  pub Takes-Follows : Takes s node l t → Follows s t
  Takes-Follows p = record {
    counts = omega (arith, p.counted);
    lease = λ k x e. inl (Takes-Within p k x e);
  }

  pub Puts-Follows : Puts s node l t → Follows s t
  Puts-Follows p = record {
    counts = omega (arith, p.counted);
    lease = λ k x e. elim (Bool-cases (node == k)) [
      | inl same ↦
          let here : x ≡ l = ground (arith, p.held, e, (eq_iff node k).0 same) in
          inr (rw here (omega (arith, p.counted, p.numbered)))
      | inr other ↦ inl (sym (p.others k other) ∙ e)
    ];
  }

  -- the lease that is put has a generation that no other node's lease has
  Puts-fresh :
      IsValid s
      → Puts s node l t
      → (j k : String) (x y : Lease) → (node == j) ≡ true
      → (node == k) ≡ false
      → lookup j t.leases ≡ some x
      → lookup k t.leases ≡ some y
      → y.generation < x.generation
  Puts-fresh v p j k x y at_j off_k ej ek =
      let (_, _, fits) = v.at_key k y (sym (p.others k off_k) ∙ ek) in
      let here : x ≡ l = ground (arith, p.held, ej, (eq_iff node j).0 at_j) in
      rw here (omega (arith, p.counted, p.numbered))

  pub Puts-Distinct : IsValid s → Puts s node l t → Distinct s → Distinct t
  Puts-Distinct v p d j k x y ej ek same = elim (Bool-cases (node == j)) [
    | inl at_j ↦ elim (Bool-cases (node == k)) [
      | inl at_k ↦ sym ((eq_iff node j).0 at_j) ∙ (eq_iff node k).0 at_k
      | inr off_k ↦ absurd (omega (arith, Puts-fresh v p j k x y at_j off_k ej ek))
    ]
    | inr off_j ↦ elim (Bool-cases (node == k)) [
      | inl at_k ↦ absurd (omega (arith, Puts-fresh v p k j y x at_k off_j ek ej))
      | inr off_k ↦ d j k x y (sym (p.others j off_j) ∙ ej) (sym (p.others k off_k) ∙ ek) same
    ]
  ]

pub empty-IsFenced : (is_uuid : String → Bool) → IsFenced is_uuid missing empty_lease_store
unfolding read_lease_store lookup
empty-IsFenced is_uuid = record {
  readable = refl;
  unique = tt;
  distinct = λ j k l m ej ek same. absurd (cc);
}

survivor-some :
    (node_id : Option String) (now : Instant) (j : String) (o : Option Lease) (x : Lease)
    → survivor node_id now j o ≡ some x
    → o ≡ some x
survivor-some node_id now j none x h = h
survivor-some node_id now j (some l) x h = ground arith

pub reap-Within :
    (s : LeaseStore) (now : Instant) (node_id : Option String)
    → NodupKeys s.leases
    → Within s (reap_expired_leases s now node_id).0
reap-Within s now node_id unique k x e =
    survivor-some node_id now k (lookup k s.leases) x
      (sym (lookup-reap_expired_leases s now node_id k unique) ∙ e)
