-- ===== src/Custody/Overlaps.antt =====
-- What the receipts in a written ledger report of the other worktrees.
use Prim.Native.Nat.{Ordering}
use Prim.Native.String
use opl_flow.Base.{
  ◌⊎◌, ◌≢◌, All, sym, String, Bool, true, not, ◌&&◌, ◌||◌, ◌==◌, ◌≡◌, refl, inl, inr, Option, some,
  List, [], ◌∷◌, member, arith, eq_iff, ok, Result-cases, Option-cases, Bool-cases, all,
}
use opl_flow.Custody.Data.{
  Identity, Overlap, Entry, Ledger, Host, find_entry, put_entry, is_active_entry,
}
use opl_flow.Custody.Ledger.{
  read_ledger, write_ledger, active_worktrees, kept_overlaps, pruned, pruned_all, insert_entry,
  sorted_entries, normalize_ledger, check_entries, prune_orphaned_integration_overlaps,
}
use opl_flow.Custody.Receipts.{transfer_owner}
use opl_flow.Custody.Changes.{
  TransferRequest, new_identity, transferred_entry, expected_entry, retold_overlaps, retold,
  retold_all,
}
use opl_flow.Custody.Written.{find_entry-worktree, find_entry-write_ledger}

-- the overlap names the lane only with the identity given
abbrev pub tells : String → Identity → Overlap → Bool
tells lane i o =
    not (o.worktree == lane)
    || (o.custody_thread_id == i.custody_thread_id
        && o.objective_ref == i.objective_ref
        && o.custody_owner == i.custody_owner)

-- some receipt of the worktree is ACTIVE
abbrev pub HasActive : String → List Entry → Type 0
HasActive worktree [] = ⊥
HasActive worktree (e ∷ es) =
    ((e.worktree ≡ worktree) × (e.status ≡ "ACTIVE")) ⊎ HasActive worktree es

-- the overlap is with another worktree, of which a receipt is ACTIVE
abbrev pub IsLive : List Entry → String → Overlap → Type 0
IsLive es worktree o = (o.worktree ≢ worktree) × HasActive o.worktree es

retold_overlaps-tells :
    (lane : String) (i : Identity) (os : List Overlap)
    → all (λ o. tells lane i o) (retold_overlaps lane i os) ≡ true
unfolding retold_overlaps
retold_overlaps-tells lane i [] = refl
retold_overlaps-tells lane i (o ∷ os) = ground (
  arith,
  retold_overlaps-tells lane i os,
  eq_iff i.custody_thread_id i.custody_thread_id,
  eq_iff i.objective_ref i.objective_ref,
  eq_iff i.custody_owner i.custody_owner,
)

kept_overlaps-tells :
    (lane : String) (i : Identity) (active : List String) (worktree : String) (os : List Overlap)
    → all (λ o. tells lane i o) os ≡ true
    → all (λ o. tells lane i o) (kept_overlaps active worktree os) ≡ true
unfolding kept_overlaps
kept_overlaps-tells lane i active worktree [] h = refl
kept_overlaps-tells lane i active worktree (o ∷ os) h =
    ground (arith, kept_overlaps-tells lane i active worktree os)

active_worktrees-HasActive :
    (worktree : String) (es : List Entry)
    → member worktree (active_worktrees es) ≡ true
    → HasActive worktree es
unfolding active_worktrees is_active_entry member
active_worktrees-HasActive worktree [] h = cc
active_worktrees-HasActive worktree (e ∷ es) h = elim (Bool-cases (e.status == "ACTIVE")) [
  | inr other ↦ inr (active_worktrees-HasActive worktree es (ground (arith, other)))
  | inl active ↦ elim (Bool-cases (worktree == e.worktree)) [
    | inl here ↦
        inl (sym ((eq_iff worktree e.worktree).0 here), (eq_iff e.status "ACTIVE").0 active)
    | inr there ↦ inr (
        active_worktrees-HasActive worktree es
          (ground (arith, active, there, eq_iff worktree e.worktree, eq_iff e.worktree worktree)))
  ]
]

pruned_all-HasActive :
    (worktree : String) (active : List String) (es : List Entry)
    → HasActive worktree es
    → HasActive worktree (pruned_all active es)
unfolding pruned_all pruned
pruned_all-HasActive worktree active [] h = h
pruned_all-HasActive worktree active (e ∷ es) (inl here) = inl here
pruned_all-HasActive worktree active (e ∷ es) (inr there) =
    inr (pruned_all-HasActive worktree active es there)

insert_entry-HasActive :
    (worktree : String) (x : Entry) (es : List Entry)
    → HasActive worktree (x ∷ es)
    → HasActive worktree (insert_entry x es)
unfolding insert_entry
insert_entry-HasActive worktree x [] h = h
insert_entry-HasActive worktree x (e ∷ es) h =
    insert_at (String.compare e.worktree x.worktree) (λ k. insert_entry-HasActive worktree x es k) h
  where
    insert_at :
        (c : Ordering)
        → (HasActive worktree (x ∷ es) → HasActive worktree (insert_entry x es))
        → HasActive worktree (x ∷ e ∷ es)
        → HasActive worktree (elim c [ Ordering.lt ↦ e ∷ insert_entry x es | _ ↦ x ∷ e ∷ es ])
    insert_at Ordering.eq rest k = k
    insert_at Ordering.gt rest k = k
    insert_at Ordering.lt rest (inl new) = inr (rest (inl new))
    insert_at Ordering.lt rest (inr (inl here)) = inl here
    insert_at Ordering.lt rest (inr (inr there)) = inr (rest (inr there))

sorted_entries-HasActive :
    (worktree : String) (es : List Entry)
    → HasActive worktree es
    → HasActive worktree (sorted_entries es)
unfolding sorted_entries
sorted_entries-HasActive worktree [] h = h
sorted_entries-HasActive worktree (e ∷ es) (inl here) =
    insert_entry-HasActive worktree e (sorted_entries es) (inl here)
sorted_entries-HasActive worktree (e ∷ es) (inr there) =
    insert_entry-HasActive worktree e (sorted_entries es)
      (inr (sorted_entries-HasActive worktree es there))

kept_overlaps-IsLive :
    (es : List Entry) (active : List String) (worktree : String)
    → ((k : String) → member k active ≡ true → HasActive k es)
    → (os : List Overlap) → All (λ o. IsLive es worktree o) (kept_overlaps active worktree os)
unfolding kept_overlaps
kept_overlaps-IsLive es active worktree there [] = tt
kept_overlaps-IsLive es active worktree there (o ∷ os) =
    let rest = kept_overlaps-IsLive es active worktree there os in
    elim (Bool-cases (member o.worktree active && not (o.worktree == worktree))) [
      | inl kept ↦ rw kept (
        (
          (λ same. ground (arith, kept, same, eq_iff o.worktree worktree)),
          there o.worktree (ground (arith, kept)),
        ),
        rest,
      )
      | inr dropped ↦ rw dropped rest
    ]

written-HasActive :
    (host : Host) (now : String) (l l' : Ledger) (k : String)
    → write_ledger host now l ≡ ok l'
    → member k (active_worktrees l.entries) ≡ true
    → HasActive k l'.entries
unfolding write_ledger normalize_ledger prune_orphaned_integration_overlaps
written-HasActive host now l l' k h active =
    let sorted = sorted_entries-HasActive k (pruned_all (active_worktrees l.entries) l.entries) (
      pruned_all-HasActive k (active_worktrees l.entries) l.entries
        (active_worktrees-HasActive k l.entries active)) in
    let same : l'.entries ≡ sorted_entries (pruned_all (active_worktrees l.entries) l.entries) =
      ground (arith, Result-cases (check_entries host l.entries [])) in
    rw same sorted

retold_all-tells :
    (lane k : String) (i : Identity) (es : List Entry) (e : Entry)
    → find_entry k (retold_all lane i es) ≡ some e
    → all (λ o. tells lane i o) e.integration_overlaps ≡ true
unfolding find_entry retold_all retold
retold_all-tells lane k i [] e h = cc
retold_all-tells lane k i (x ∷ es) e h = elim (Bool-cases (x.worktree == k)) [
  | inl here ↦ ground (arith, here, retold_overlaps-tells lane i x.integration_overlaps)
  | inr there ↦ retold_all-tells lane k i es e (ground (arith, there))
]

module _ (host : Host) (now : String) (l l' : Ledger) (k : String) (e : Entry) where
  -- Every overlap that a receipt of a written ledger reports is with another worktree, and the written
  -- ledger has a receipt of that worktree with the status ACTIVE.
  pub write_ledger-IsLive :
      write_ledger host now l ≡ ok l'
      → find_entry k l'.entries ≡ some e
      → All (λ o. IsLive l'.entries k o) e.integration_overlaps
  unfolding pruned
  write_ledger-IsLive h at = elim (Option-cases (find_entry k l.entries)) [
    | inl none_there ↦
        absurd (ground (arith, find_entry-write_ledger host now l l' k h, none_there))
    | inr (x, there) ↦
        let named : x.worktree ≡ k = find_entry-worktree k l.entries x there in
        let same : e.integration_overlaps
            ≡ kept_overlaps (active_worktrees l.entries) x.worktree x.integration_overlaps =
          ground (arith, find_entry-write_ledger host now l l' k h, there) in
        rw (same, named)
          (kept_overlaps-IsLive l'.entries (active_worktrees l.entries) k
            (λ j active. written-HasActive host now l l' j h active) x.integration_overlaps)
  ]

  written-tells :
      (lane : String) (i : Identity)
      → ((x : Entry)
          → find_entry k l.entries ≡ some x
          → all (λ o. tells lane i o) x.integration_overlaps ≡ true)
      → write_ledger host now l ≡ ok l'
      → find_entry k l'.entries ≡ some e
      → all (λ o. tells lane i o) e.integration_overlaps ≡ true
  unfolding pruned
  written-tells lane i before h at = elim (Option-cases (find_entry k l.entries)) [
    | inl none_there ↦
        absurd (ground (arith, find_entry-write_ledger host now l l' k h, none_there))
    | inr (x, there) ↦ ground (
      arith,
      find_entry-write_ledger host now l l' k h,
      there,
      kept_overlaps-tells lane i (active_worktrees l.entries) x.worktree x.integration_overlaps
          (before x there),
    )
  ]

-- After a transfer, no receipt in the ledger reports the old owner of the worktree: each overlap
-- with it names the new thread, the new owner and the objective.
pub transfer_owner-tells :
    (host : Host) (machine now : String) (file : Option Ledger) (l' : Ledger) (q : TransferRequest)
    (x : Entry) (k : String) (e : Entry)
    → transfer_owner host machine now q file ≡ ok (x, l')
    → find_entry k l'.entries ≡ some e
    → all (λ o. tells q.lane (new_identity q) o) e.integration_overlaps ≡ true
unfolding transfer_owner
transfer_owner-tells host machine now file l' q x k e h at =
    elim (Result-cases (read_ledger host machine now file)) [
      | inr (bad, f) ↦ absurd (ground (arith, f))
      | inl (l, reads) ↦
          elim (Result-cases (expected_entry (find_entry q.lane l.entries) q.expected)) [
            | inr (bad, f) ↦ absurd (ground (arith, reads, f))
            | inl (old, there) ↦
                let moved = transferred_entry q now old in
                let changed_ledger : Ledger = record l {
                  entries = retold_all q.lane (new_identity q) (put_entry moved l.entries);
                } in
                elim (Result-cases (write_ledger host now changed_ledger)) [
                  | inr (bad, f) ↦ absurd (ground (arith, reads, there, f))
                  | inl (w, wrote) ↦
                      written-tells host now changed_ledger w k e q.lane (new_identity q)
                        (λ y found.
                          retold_all-tells q.lane k (new_identity q) (put_entry moved l.entries) y
                            found)
                        wrote (ground (arith, reads, there, wrote, at))
                ]
          ]
    ]
