-- ===== src/Custody/Cleared.antt =====
-- What a close of a stale receipt has observed, and what it leaves.
use opl_flow.Base.{
  String, true, false, ◌≡◌, ◌⊎◌, refl, ◌∙◌, ap, inl, inr, ◌==◌, ◌<◌, Option, none, some, arith,
  eq_iff, ok, Result-cases, Bool-cases, if◌then◌else◌,
}
use opl_flow.Custody.Absorption.{Absorption, Presence, present, absent, unverifiable}
use opl_flow.Custody.Data.{RemoteRecovery, Entry, Ledger, Host}
use opl_flow.Custody.Ledger.{read_ledger, write_ledger}
use opl_flow.Custody.Transfers.{has_text-some, custody_at, written-custody_at}
use opl_flow.Custody.Close.{without_lane}
use opl_flow.Custody.Removals.{without_lane-custody_at}
use opl_flow.Custody.Superseded.{SupersededAnswers, entries_at, unique_active, check_surface}
use opl_flow.Custody.Only.{IsOnly, entries_at-IsOnly, unique_active-entry}
use opl_flow.Custody.Retired.{IsClear, check_surface-IsClear}
use opl_flow.Custody.Stale.{
  StaleArgs, StaleAnswers, Absorbed, is_strict, absorbed_recovery, patched, merged_or_patched,
  has_tree, check_stale_paths, is_stale_receipt, names_branch, check_stale, stale_receipt,
  close_stale,
}

-- The audit found commits, each with an equivalent one in the target, and none that is left over.
pub record IsPatchEquivalent (target_head commit : String) (p : Absorption) : Type 0 where
  pub same_target : p.target_head ≡ target_head
  pub same_lane : p.lane_head ≡ commit
  pub some_commit : 0 < p.lane_commit_count
  pub all_equivalent : p.equivalent_commit_count ≡ p.lane_commit_count
  pub no_merge : p.merge_commit_count ≡ 0
  pub none_left : p.unabsorbed_commit_count ≡ 0

-- The target has the commit of a recovery, or commits that are equivalent to those that lead to it.
abbrev pub IsAbsorbed : StaleAnswers → Option RemoteRecovery → Type 0
IsAbsorbed x none = Unit
IsAbsorbed x (some r) =
    (x.tree_of r.commit ≡ some r.tree)
    × ((x.ancestor r.commit x.surface.target_head ≡ present)
        ⊎ ((x.ancestor r.commit x.surface.target_head ≡ absent)
            × (p : Absorption) × (x.absorption r.commit ≡ some p)
            × IsPatchEquivalent x.surface.target_head r.commit p))

is_strict-IsPatchEquivalent :
    (target_head commit : String) (p : Absorption)
    → is_strict target_head commit p ≡ true
    → IsPatchEquivalent target_head commit p
unfolding is_strict
is_strict-IsPatchEquivalent target_head commit p h = record {
  same_target = ground (arith, eq_iff p.target_head target_head);
  same_lane = ground (arith, eq_iff p.lane_head commit);
  some_commit = ground arith;
  all_equivalent = ground arith;
  no_merge = ground arith;
  none_left = ground arith;
}

patched-IsAbsorbed :
    (x : StaleAnswers) (commit : String) (o : Option Absorption) {v : Absorbed}
    → patched x.surface.target_head commit o ≡ ok v
    → (p : Absorption) × (o ≡ some p) × IsPatchEquivalent x.surface.target_head commit p
patched-IsAbsorbed x commit none h = absurd (ground arith)
patched-IsAbsorbed x commit (some p) h =
    elim (Bool-cases (is_strict x.surface.target_head commit p)) [
      | inl strict ↦ (p, refl, is_strict-IsPatchEquivalent x.surface.target_head commit p strict)
      | inr loose ↦ absurd (ground (arith, loose))
    ]

merged_or_patched-cases :
    (x : StaleAnswers) (commit : String) (c : Presence) {v : Absorbed}
    → merged_or_patched x commit c ≡ ok v
    → (c ≡ present)
      ⊎ ((c ≡ absent)
          × (p : Absorption) × (x.absorption commit ≡ some p)
          × IsPatchEquivalent x.surface.target_head commit p)
merged_or_patched-cases x commit present h = inl refl
merged_or_patched-cases x commit absent {v} h =
    let (p, found, equivalent) = patched-IsAbsorbed x commit (x.absorption commit) {v = v} h in
    inr (refl, p, found, equivalent)
merged_or_patched-cases x commit unverifiable h = absurd (ground arith)

has_tree-some : (o : Option String) (tree : String) → has_tree o tree ≡ true → o ≡ some tree
has_tree-some none tree h = absurd (ground arith)
has_tree-some (some t) tree h = ap some ((eq_iff t tree).0 h)

absorbed_recovery-IsAbsorbed :
    (x : StaleAnswers) (o : Option RemoteRecovery) {v : Absorbed}
    → absorbed_recovery x o ≡ ok v
    → IsAbsorbed x o
unfolding absorbed_recovery
absorbed_recovery-IsAbsorbed x none h = tt
absorbed_recovery-IsAbsorbed x (some r) {v} h =
    elim (Bool-cases (has_tree (x.tree_of r.commit) r.tree)) [
      | inr other ↦ absurd (ground (arith, other))
      | inl same ↦ (
        has_tree-some (x.tree_of r.commit) r.tree same,
        merged_or_patched-cases x r.commit (x.ancestor r.commit x.surface.target_head) {v = v}
            (ground (arith, same)),
      )
    ]

-- The receipt has the thread, the objective and the owner of the call.
pub record IsStale (a : StaleArgs) (e : Entry) : Type 0 where
  pub thread : e.identity.custody_thread_id ≡ a.thread_id
  pub objective : e.identity.objective_ref ≡ a.objective_id
  pub owner : e.identity.custody_owner ≡ a.owner

is_stale_receipt-IsStale : (a : StaleArgs) (e : Entry) → is_stale_receipt a e ≡ true → IsStale a e
unfolding is_stale_receipt
is_stale_receipt-IsStale a e h = record {
  thread = (eq_iff e.identity.custody_thread_id a.thread_id).0 (ground arith);
  objective = (eq_iff e.identity.objective_ref a.objective_id).0 (ground arith);
  owner = (eq_iff e.identity.custody_owner a.owner).0 (ground arith);
}

-- A recovery, if there is one, is of the branch.
abbrev pub IsOfBranch : Option RemoteRecovery → String → Type 0
IsOfBranch none branch = Unit
IsOfBranch (some r) branch = r.branch ≡ some branch

names_branch-IsOfBranch :
    (o : Option RemoteRecovery) (branch : String)
    → names_branch o branch ≡ true
    → IsOfBranch o branch
names_branch-IsOfBranch none branch h = tt
names_branch-IsOfBranch (some r) branch h = has_text-some r.branch branch h

check_stale-IsClear :
    (a : StaleArgs) (x : SupersededAnswers) (e : Entry) {t : Unit {0}}
    → check_stale a x e ≡ ok t
    → (is_stale_receipt a e ≡ true)
      × (names_branch e.remote_recovery a.branch ≡ true)
      × IsClear x a.branch
      × (x.registered ≡ false)
      × (x.held ≡ false)
      × (x.locked ≡ false)
unfolding check_stale
check_stale-IsClear a x e h = elim (Result-cases (check_surface x a.branch)) [
  | inr (e', bad) ↦ absurd (ground (arith, bad))
  | inl (t, clear) ↦ (
    ground (arith, clear),
    ground (arith, clear),
    check_surface-IsClear x a.branch {t = t} clear,
    ground (arith, clear),
    ground (arith, clear),
    ground (arith, clear),
  )
]

module _ (host : Host) (machine now : String) where
  -- The receipt of a worktree that is gone with its branch has been taken out of the ledger.
  pub record Cleared (a : StaleArgs) (x : StaleAnswers) (file file' : Option Ledger) : Type 0 where
    pub payload : Ledger
    pub reads : read_ledger host machine now file ≡ ok payload
    pub entry : Entry
    pub only : IsOnly a.lane_key entry payload.entries
    pub active : entry.status ≡ "ACTIVE"
    pub named : IsStale a entry
    pub same_branch : IsOfBranch entry.remote_recovery a.branch
    pub clear : IsClear x.surface a.branch
    pub free :
        (x.surface.registered ≡ false) × (x.surface.held ≡ false) × (x.surface.locked ≡ false)
    pub absorbed : IsAbsorbed x entry.remote_recovery
    pub written : Ledger
    pub saved : file' ≡ some written
    pub custody :
        (k : String)
        → custody_at k written.entries
          ≡ (if a.lane_key == k then none else custody_at k payload.entries)

  stale_receipt-entry :
      (a : StaleArgs) (x : StaleAnswers) (file : Option Ledger) (payload : Ledger) (e : Entry)
      (v : Absorbed)
      → stale_receipt host machine now a x file ≡ ok (payload, e, v)
      → (read_ledger host machine now file ≡ ok payload)
        × (unique_active (entries_at a.lane_key payload.entries) ≡ ok e)
        × (check_stale a x.surface e ≡ ok tt)
        × (absorbed_recovery x e.remote_recovery ≡ ok v)
  unfolding stale_receipt
  stale_receipt-entry a x file payload e v h = elim (Result-cases (check_stale_paths a x.surface)) [
    | inr (e', bad) ↦ absurd (ground (arith, bad))
    | inl (t0, e0) ↦ elim (Result-cases (read_ledger host machine now file)) [
      | inr (e', bad) ↦ absurd (ground (arith, e0, bad))
      | inl (l, e1) ↦ elim (Result-cases (unique_active (entries_at a.lane_key l.entries))) [
        | inr (e', bad) ↦ absurd (ground (arith, e0, e1, bad))
        | inl (y, e2) ↦ elim (Result-cases (check_stale a x.surface y)) [
          | inr (e', bad) ↦ absurd (ground (arith, e0, e1, e2, bad))
          | inl (t, e3) ↦ elim (Result-cases (absorbed_recovery x y.remote_recovery)) [
            | inr (e', bad) ↦ absurd (ground (arith, e0, e1, e2, e3, bad))
            | inl (z, e4) ↦
                let is_ledger : l ≡ payload = ground (arith, e0, e1, e2, e3, e4) in
                let is_entry : y ≡ e = ground (arith, e0, e1, e2, e3, e4) in
                let is_value : z ≡ v = ground (arith, e0, e1, e2, e3, e4) in
                (
                  e1 ∙ ap ok is_ledger,
                  rw (← is_ledger, ← is_entry) e2,
                  rw (← is_entry) e3,
                  rw (← is_entry, ← is_value) e4,
                )
          ]
        ]
      ]
    ]
  ]

  -- A close of a stale receipt that succeeds found exactly one receipt of the worktree, ACTIVE and with
  -- the thread, objective and owner that are named, and with no recovery or one of the branch that is
  -- named; nothing is left of that branch, and the worktree is not registered, held or locked; the commit
  -- of a recovery has the recorded tree, and is an ancestor of the target or, by the audit, part of
  -- commits that each have an equivalent one there. The receipt is gone, and the custody of every other
  -- worktree is as it was.
  pub close_stale-Cleared :
      (a : StaleArgs) (x : StaleAnswers) (file file' : Option Ledger) (v : Absorbed)
      → close_stale host machine now a x file ≡ (file', ok v)
      → Cleared a x file file'
  unfolding close_stale
  close_stale-Cleared a x file file' v h =
      elim (Result-cases (stale_receipt host machine now a x file)) [
        | inr (e, bad) ↦ absurd (ground (arith, bad))
        | inl ((payload, entry, z), found) ↦
            let shorter : Ledger = record payload {
              entries = without_lane a.lane_key payload.entries;
            } in
            elim (Result-cases (write_ledger host now shorter)) [
              | inr (e, bad) ↦ absurd (ground (arith, found, bad))
              | inl (written, wrote) ↦
                  let (reads, unique, checked, taken) =
                    stale_receipt-entry a x file payload entry z found in
                  let (alone, active) =
                    unique_active-entry (entries_at a.lane_key payload.entries) entry unique in
                  let (named, same, clear, f1, f2, f3) =
                    check_stale-IsClear a x.surface entry {t = tt} checked in
                  record {
                    payload = payload;
                    reads = reads;
                    entry = entry;
                    only = entries_at-IsOnly a.lane_key entry payload.entries alone;
                    active = active;
                    named = is_stale_receipt-IsStale a entry named;
                    same_branch = names_branch-IsOfBranch entry.remote_recovery a.branch same;
                    clear = clear;
                    free = (f1, f2, f3);
                    absorbed = absorbed_recovery-IsAbsorbed x entry.remote_recovery {v = z} taken;
                    written = written;
                    saved = ground (arith, found, wrote);
                    custody = λ k.
                        written-custody_at host now shorter written k wrote
                        ∙ without_lane-custody_at a.lane_key k payload.entries;
                  }
            ]
      ]
