-- ===== src/Fleet/Lease/Runs.antt =====
-- Sequences of transactions, and the generations that they leave behind.
use opl_flow.Base.{
  String, Bool, false, ◌≡◌, refl, Option, some, List, [], ◌∷◌, ◌≤◌, arith, Option-cases, inl, inr,
  ok, err, is_ok, ◌≢◌, Result-cases,
}
use opl_flow.Base.Int.{ℤ}
use opl_flow.Base.Dict.{lookup}
use opl_flow.Base.Results.{Result}
use opl_flow.Fleet.Common.{FleetError}
use opl_flow.Fleet.Lease.Data.{Instant, Lease, LeaseStore, StoreFile, missing, empty_lease_store}
use opl_flow.Fleet.Lease.Store.{read_lease_store}
use opl_flow.Fleet.Lease.Reaping.{read_lease_store-IsValid}
use opl_flow.Fleet.Lease.Records.{
  assert_lease_cas, acquire_lease_record, renew_lease_record, release_lease_record,
  fleet_lease_reap,
}
use opl_flow.Fleet.Lease.Requests.{AcquireRequest, Credential}
use opl_flow.Fleet.Lease.Fencing.{
  Distinct, IsFenced, Follows, Follows-refl, Follows-trans, Within-Distinct, Takes-Within,
  Takes-Follows, Puts-Follows, Puts-Distinct, empty-IsFenced,
}
use opl_flow.Fleet.Lease.Files.{
  acquire_lease_record-Puts, renew_lease_record-Puts, release_lease_record-Takes,
  fleet_lease_reap-Within,
}

-- A transaction of one controller process on the file of the store.
pub data Transaction : Type 0 where
  acquire : AcquireRequest → Instant → Transaction
  renew : Credential → ℤ → Option String → String → Instant → Transaction
  release : Credential → Instant → Transaction
  reap : Option String → Instant → Transaction

-- the file after a call; one that raises has not written it
abbrev after {ℓ} : {A : Type ℓ} → StoreFile → Result FleetError (A × StoreFile) → StoreFile
after file (ok (a, file')) = file'
after file (err e) = file

module _ (is_uuid : String → Bool) where
  unfoldable pub run_one : StoreFile → Transaction → StoreFile
  run_one file (acquire r now) = after file (acquire_lease_record is_uuid r now file)
  run_one file (renew c ttl phase nonce now) =
      after file (renew_lease_record is_uuid c ttl phase nonce now file)
  run_one file (release c now) = after file (release_lease_record is_uuid c now file)
  run_one file (reap node_id now) = after file (fleet_lease_reap is_uuid node_id now file)

  -- The exclusive lock makes the transactions of all processes one sequence.
  unfoldable pub run : StoreFile → List Transaction → StoreFile
  run file [] = file
  run file (t ∷ ts) = run (run_one file t) ts

-- A credential of another generation is refused.
stale_refused :
    (l : Lease) (c : Credential) (now : Instant)
    → l.generation ≢ c.generation
    → is_ok (assert_lease_cas (some l) c now) ≡ false
unfolding assert_lease_cas
stale_refused l c now other = ground arith

module _ (is_uuid : String → Bool) where
  run_one-IsFenced :
      (file : StoreFile) (t : Transaction) (s : LeaseStore)
      → IsFenced is_uuid file s
      → (s' : LeaseStore) × IsFenced is_uuid (run_one is_uuid file t) s' × Follows s s'
  unfolding run_one
  run_one-IsFenced file (acquire r now) s f =
      elim (Result-cases (acquire_lease_record is_uuid r now file)) [
        | inr (x, e) ↦ rw e (s, f, Follows-refl s)
        | inl ((l, file'), e) ↦
            let (node, t, _, p, reads) =
              acquire_lease_record-Puts is_uuid r now file file' s l f.readable f.unique e in
            rw e (
              t,
              record {
                readable = reads;
                unique = p.nodup f.unique;
                distinct =
                    Puts-Distinct s t node l (read_lease_store-IsValid is_uuid file s f.readable) p
                      f.distinct;
              },
              Puts-Follows s t node l p,
            )
      ]
  run_one-IsFenced file (renew c ttl phase nonce now) s f =
      elim (Result-cases (renew_lease_record is_uuid c ttl phase nonce now file)) [
        | inr (x, e) ↦ rw e (s, f, Follows-refl s)
        | inl ((l, file'), e) ↦
            let (node, t, _, _, p, reads) =
              renew_lease_record-Puts is_uuid c ttl phase nonce now file file' s l f.readable e in
            rw e (
              t,
              record {
                readable = reads;
                unique = p.nodup f.unique;
                distinct =
                    Puts-Distinct s t node l (read_lease_store-IsValid is_uuid file s f.readable) p
                      f.distinct;
              },
              Puts-Follows s t node l p,
            )
      ]
  run_one-IsFenced file (release c now) s f =
      elim (Result-cases (release_lease_record is_uuid c now file)) [
        | inr (x, e) ↦ rw e (s, f, Follows-refl s)
        | inl ((l, file'), e) ↦
            let (node, t, _, p, reads) =
              release_lease_record-Takes is_uuid c now file file' s l f.readable e in
            rw e (
              t,
              record {
                readable = reads;
                unique = p.nodup f.unique;
                distinct = Within-Distinct s t (Takes-Within s t node l p) f.distinct;
              },
              Takes-Follows s t node l p,
            )
      ]
  run_one-IsFenced file (reap node_id now) s f =
      elim (Result-cases (fleet_lease_reap is_uuid node_id now file)) [
        | inr (x, e) ↦ rw e (s, f, Follows-refl s)
        | inl ((ls, file'), e) ↦
            elim (fleet_lease_reap-Within is_uuid node_id now file file' s ls f.readable f.unique
              e) [
                | inl same ↦ rw (e, same) (s, f, Follows-refl s)
                | inr (t, w, counts, unique, reads) ↦ rw e (
                  t,
                  record {
                    readable = reads;
                    unique = unique;
                    distinct = Within-Distinct s t w f.distinct;
                  },
                  record { counts = counts; lease = λ k x e. inl (w k x e) },
                )
              ]
      ]

  pub run-Follows :
      (ts : List Transaction) (file : StoreFile) (s : LeaseStore)
      → IsFenced is_uuid file s
      → (s' : LeaseStore) × IsFenced is_uuid (run is_uuid file ts) s' × Follows s s'
  unfolding run
  run-Follows [] file s f = (s, f, Follows-refl s)
  run-Follows (t ∷ ts) file s f =
      let (u, fenced, first) = run_one-IsFenced file t s f in
      let (v, last, rest) = run-Follows ts (run_one is_uuid file t) u fenced in
      (v, last, Follows-trans s u v first rest)

  -- After any sequence of transactions from no file at all, whatever their arguments and whichever
  -- of them fail, the file can be read back, and no two nodes hold leases of one generation.
  pub run-Distinct :
      (ts : List Transaction)
      → (s : LeaseStore) × (read_lease_store is_uuid (run is_uuid missing ts) ≡ ok s) × Distinct s
  run-Distinct ts =
      let (s, f, _) = run-Follows ts missing empty_lease_store (empty-IsFenced is_uuid) in
      (s, f.readable, f.distinct)

  -- The credential of a lease that is gone from the store is refused after any further transactions.
  pub retired_forever :
      (ts : List Transaction) (file : StoreFile) (s : LeaseStore) (c : Credential)
      → IsFenced is_uuid file s
      → c.generation ≤ s.generation
      → ((k : String) (l : Lease) → lookup k s.leases ≡ some l → l.generation ≢ c.generation)
      → (u : LeaseStore) × (read_lease_store is_uuid (run is_uuid file ts) ≡ ok u)
        × ((k : String) (now : Instant)
            → is_ok (assert_lease_cas (lookup k u.leases) c now) ≡ false)
  retired_forever ts file s c f used gone =
      let (u, last, follows) = run-Follows ts file s f in
      (
        u,
        last.readable,
        λ k now. elim (Option-cases (lookup k u.leases)) [
          | inl free ↦ rw free (unfold assert_lease_cas in refl)
          | inr (l, held) ↦
              let other : l.generation ≢ c.generation = elim (follows.lease k l held) [
                | inl old ↦ gone k l old
                | inr new ↦ λ e. omega arith
              ] in
              rw held (stale_refused l c now other)
        ],
      )
