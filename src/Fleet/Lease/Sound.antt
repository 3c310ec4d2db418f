-- ===== src/Fleet/Lease/Sound.antt =====
-- What the validators of the lease store let through.
use Prim.Native.Nat.{max}
use mathlib.Core.Path.{subst}
use mathlib.Core.Option.{some-injective}
use opl_flow.Base.{
  ◌∙◌, inl, inr, Bool-cases, Result-cases, ℕ, String, Bool, true, false, ◌≡◌, ◌≤◌, ◌<◌, some, [],
  ◌∷◌, ◌==◌, arith, eq_iff, length, ok,
}
use opl_flow.Base.Dict.{Dict, lookup}
use opl_flow.Base.Text.{is_hex_of}
use opl_flow.Fleet.Common.{FleetError, lease_identity_invalid, normalize_node_id}
use opl_flow.Fleet.Lease.Data.{Lease, LeaseStore}
use opl_flow.Fleet.Lease.Validate.{
  bad_policy, unprotected, check_node_id, validate_lease, validate_items, validate_lease_store,
}

-- The part of a valid lease that the transactions rely on.
pub record IsSound (l : Lease) : Type 0 where
  pub numbered : 1 ≤ l.generation
  pub lasting : l.acquired_at < l.expires_at
  pub policy : bad_policy l ≡ false
  pub guarded : unprotected l ≡ false
  pub secret : is_hex_of 32 l.nonce ≡ true
  pub normal : normalize_node_id l.node_id ≡ ok l.node_id

pub check_node_id-eq-ok :
    (n : String) (e : FleetError) {t : Unit {0}}
    → check_node_id n e ≡ ok t
    → normalize_node_id n ≡ ok n
unfolding check_node_id
check_node_id-eq-ok n e h = elim (Result-cases (normalize_node_id n)) [
  | inl (m, normal) ↦ ground (arith, normal, eq_iff m n)
  | inr (x, bad) ↦ absurd (ground (arith, bad))
]

module _ (is_uuid : String → Bool) where
  pub validate_lease-eq-ok : (l l' : Lease) → validate_lease is_uuid l ≡ ok l' → l' ≡ l
  unfolding validate_lease
  validate_lease-eq-ok l l' h = ground arith

  pub validate_lease-IsSound : (l l' : Lease) → validate_lease is_uuid l ≡ ok l' → IsSound l
  unfolding validate_lease
  validate_lease-IsSound l l' h =
      ground (arith, check_node_id-eq-ok l.node_id lease_identity_invalid {t = tt})

  -- One round of the loop over the leases.
  validate_items-cons :
      (k : String) (l : Lease) (d : Dict Lease) (m : ℕ) {n : ℕ}
      → validate_items is_uuid ((k, l) ∷ d) m ≡ ok n
      → IsSound l × (l.node_id ≡ k) × (validate_items is_uuid d (max m l.generation) ≡ ok n)
  unfolding validate_items
  validate_items-cons k l d m h = elim (Result-cases (validate_lease is_uuid l)) [
    | inl (v, valid) ↦
        let e = validate_lease-eq-ok l v valid in
        (
          validate_lease-IsSound l v valid,
          ground (arith, valid, e, eq_iff l.node_id k),
          ground (arith, valid, e),
        )
    | inr (e, bad) ↦ absurd (ground (arith, bad))
  ]

  -- The loop keeps a maximum that no lease exceeds.
  validate_items-bound :
      (d : Dict Lease) (m : ℕ) {n : ℕ} → validate_items is_uuid d m ≡ ok n → m ≤ n
  unfolding validate_items
  validate_items-bound [] m h = ground arith
  validate_items-bound ((k, l) ∷ d) m h =
      omega (arith, validate_items-bound d (max m l.generation) (validate_items-cons k l d m h).2)

  validate_items-lookup :
      (d : Dict Lease) (m : ℕ) {n : ℕ} (k : String) (l : Lease)
      → validate_items is_uuid d m ≡ ok n
      → lookup k d ≡ some l
      → IsSound l × (l.node_id ≡ k) × (l.generation ≤ n)
  unfolding validate_items lookup
  validate_items-lookup [] m k l h e = absurd (cc)
  validate_items-lookup ((j, w) ∷ d) m {n} k l h e =
      let (sound, named, rest) = validate_items-cons j w d m h in
      elim (Bool-cases (j == k)) [
        | inl same ↦
            let at : w ≡ l = some-injective w l (ground (arith, e, same)) in
            subst (λ x. IsSound x × (x.node_id ≡ k) × (x.generation ≤ n)) at
              (
                sound,
                named ∙ (eq_iff j k).0 same,
                omega (arith, validate_items-bound d (max m w.generation) rest),
              )
        | inr other ↦
            validate_items-lookup d (max m w.generation) k l rest (ground (arith, e, other))
      ]

  pub validate_lease_store-eq-ok :
      (s s' : LeaseStore) → validate_lease_store is_uuid s ≡ ok s' → s' ≡ s
  unfolding validate_lease_store
  validate_lease_store-eq-ok s s' h = ground arith

-- The part of a valid store that the transactions rely on.
pub record IsValid (s : LeaseStore) : Type 0 where
  pub schema : s.schema ≡ "codex_fleet_leases.v2"
  pub bounded : length s.audit ≤ 200
  pub at_key :
      (k : String) (l : Lease)
      → lookup k s.leases ≡ some l
      → IsSound l × (l.node_id ≡ k) × (l.generation ≤ s.generation)

module _ (is_uuid : String → Bool) where
  pub validate_lease_store-IsValid :
      (s s' : LeaseStore) → validate_lease_store is_uuid s ≡ ok s' → IsValid s
  unfolding validate_lease_store
  validate_lease_store-IsValid s s' h = elim (Result-cases (validate_items is_uuid s.leases 0)) [
    | inl (maximum, items) ↦ record {
      schema = ground (arith, items, eq_iff s.schema "codex_fleet_leases.v2");
      bounded = ground (arith, items);
      at_key = λ k l e.
          let (sound, named, fits) = validate_items-lookup is_uuid s.leases 0 k l items e in
          let forward : maximum ≤ s.generation = ground (arith, items) in
          (sound, named, omega arith);
    }
    | inr (e, bad) ↦ absurd (ground (arith, bad))
  ]
