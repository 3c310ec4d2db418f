-- ===== src/Custody/Retired.antt =====
-- What a close of a superseded receipt has observed, and what it leaves.
use opl_flow.Base.{
  ap, String, true, false, ◌≡◌, refl, ◌∙◌, inl, inr, ◌==◌, Option, none, some, List, [], ◌∷◌, All,
  arith, eq_iff, ok, Result-cases, Bool-cases, if◌then◌else◌,
}
use opl_flow.Custody.Absorption.{Presence, present, absent, unverifiable}
use opl_flow.Custody.Data.{
  superseded_ref_present, superseded_config, LifecycleError, RemoteRecovery, Entry, Ledger, Host,
  find_entry,
}
use opl_flow.Custody.Ledger.{read_ledger, write_ledger}
use opl_flow.Custody.Transfers.{custody_at, written-custody_at}
use opl_flow.Custody.Only.{IsOnly, entries_at-IsOnly, unique_active-entry}
use opl_flow.Custody.Superseded.{
  is_root, branch_of, SupersededArgs, SupersededAnswers, RemoteRefs, entries_at, unique_active,
  drop_entry, is_named_receipt, check_absent, check_remotes, check_branch_name, check_surface,
  check_branch_absent, check_archive, check_paths, check_superseded, superseded_receipt,
  close_superseded,
}

-- Nothing is left of a branch.
abbrev pub IsClear : SupersededAnswers → String → Type 0
IsClear x branch =
    (x.local_ref branch ≡ absent)
    × All (λ q. (q.tracking ≡ absent) × (q.wire ≡ false)) (x.remotes branch)
    × (x.config branch ≡ absent)

-- Nothing is left of the branch, if there is one.
abbrev pub IsClearOf : SupersededAnswers → Option String → Type 0
IsClearOf x none = Unit
IsClearOf x (some branch) = IsClear x branch

-- Nothing is left of the branch that a recovery names, and an archive has its commit.
abbrev pub IsGone : SupersededAnswers → Option RemoteRecovery → Type 0
IsGone x none = Unit
IsGone x (some r) = IsClearOf x r.branch × (x.archive r ≡ ok tt)

check_absent-absent :
    (e : LifecycleError) (p : Presence) {t : Unit {0}} → check_absent e p ≡ ok t → p ≡ absent
check_absent-absent e present h = cc
check_absent-absent e absent h = refl
check_absent-absent e unverifiable h = cc

check_remotes-All :
    (rs : List RemoteRefs) {t : Unit {0}}
    → check_remotes rs ≡ ok t
    → All (λ q. (q.tracking ≡ absent) × (q.wire ≡ false)) rs
unfolding check_remotes
check_remotes-All [] h = tt
check_remotes-All (r ∷ rs) {t} h = elim (Bool-cases r.wire) [
  | inl there ↦ absurd (ground (arith, there))
  | inr clear ↦
      ((ground (arith, clear), clear), check_remotes-All rs {t = t} (ground (arith, clear)))
]

pub check_surface-IsClear :
    (x : SupersededAnswers) (branch : String) {t : Unit {0}}
    → check_surface x branch ≡ ok t
    → IsClear x branch
unfolding check_surface
check_surface-IsClear x branch h =
    elim (Result-cases (check_absent superseded_ref_present (x.local_ref branch))) [
      | inr (e, bad) ↦ absurd (ground (arith, bad))
      | inl (t1, e1) ↦ elim (Result-cases (check_remotes (x.remotes branch))) [
        | inr (e, bad) ↦ absurd (ground (arith, e1, bad))
        | inl (t2, e2) ↦ elim (Result-cases (check_absent superseded_config (x.config branch))) [
          | inr (e, bad) ↦ absurd (ground (arith, e1, e2, bad))
          | inl (t3, e3) ↦ (
            check_absent-absent superseded_ref_present (x.local_ref branch) {t = t1} e1,
            check_remotes-All (x.remotes branch) {t = t2} e2,
            check_absent-absent superseded_config (x.config branch) {t = t3} e3,
          )
        ]
      ]
    ]

check_branch_absent-IsClearOf :
    (x : SupersededAnswers) (o : Option String) {t : Unit {0}}
    → check_branch_absent x o ≡ ok t
    → IsClearOf x o
check_branch_absent-IsClearOf x none h = tt
check_branch_absent-IsClearOf x (some branch) {t} h = check_surface-IsClear x branch {t = t} h

check_branch_absent-IsGone :
    (a : SupersededArgs) (x : SupersededAnswers) (o : Option RemoteRecovery) {t u : Unit {0}}
    → check_branch_absent x (branch_of o) ≡ ok t
    → check_archive a x o ≡ ok u
    → IsGone x o
unfolding check_archive
check_branch_absent-IsGone a x none h k = tt
check_branch_absent-IsGone a x (some r) {t} h k =
    (check_branch_absent-IsClearOf x r.branch {t = t} h, ground arith)

-- The receipt has the root, the worktree, the thread, the objective and the owner of the call.
pub record IsNamed (a : SupersededArgs) (e : Entry) : Type 0 where
  pub root : e.repo_root ≡ some a.repo_key
  pub worktree : e.worktree ≡ a.lane_key
  pub thread : e.identity.custody_thread_id ≡ a.thread_id
  pub objective : e.identity.objective_ref ≡ a.objective_id
  pub owner : e.identity.custody_owner ≡ a.owner

is_root-some : (o : Option String) (key : String) → is_root o key ≡ true → o ≡ some key
is_root-some none key h = cc
is_root-some (some s) key h = ap some ((eq_iff s key).0 h)

is_named_receipt-IsNamed :
    (a : SupersededArgs) (e : Entry) → is_named_receipt a e ≡ true → IsNamed a e
unfolding is_named_receipt
is_named_receipt-IsNamed a e h = record {
  root = is_root-some e.repo_root a.repo_key (ground arith);
  worktree = (eq_iff e.worktree a.lane_key).0 (ground arith);
  thread = (eq_iff e.identity.custody_thread_id a.thread_id).0 (ground arith);
  objective = (eq_iff e.identity.objective_ref a.objective_id).0 (ground arith);
  owner = (eq_iff e.identity.custody_owner a.owner).0 (ground arith);
}

check_superseded-IsGone :
    (a : SupersededArgs) (x : SupersededAnswers) (e : Entry) {t : Unit {0}}
    → check_superseded a x e ≡ ok t
    → (is_named_receipt a e ≡ true)
      × IsGone x e.remote_recovery
      × (x.registered ≡ false)
      × (x.held ≡ false)
      × (x.locked ≡ false)
unfolding check_superseded
check_superseded-IsGone a x e h =
    elim (Result-cases (check_branch_name x (branch_of e.remote_recovery))) [
      | inr (e', bad) ↦ absurd (ground (arith, bad))
      | inl (t1, e1) ↦ elim (Result-cases (check_branch_absent x (branch_of e.remote_recovery))) [
        | inr (e', bad) ↦ absurd (ground (arith, e1, bad))
        | inl (t2, e2) ↦ elim (Result-cases (check_archive a x e.remote_recovery)) [
          | inr (e', bad) ↦ absurd (ground (arith, e1, e2, bad))
          | inl (t3, e3) ↦ (
            ground (arith, e1, e2, e3),
            check_branch_absent-IsGone a x e.remote_recovery {t = t2} {u = t3} e2 e3,
            ground (arith, e1, e2, e3),
            ground (arith, e1, e2, e3),
            ground (arith, e1, e2, e3),
          )
        ]
      ]
    ]

entries_at-drop_entry :
    (lane : String) (x : Entry) (xs es : List Entry)
    → entries_at lane es ≡ x ∷ xs
    → entries_at lane (drop_entry lane es) ≡ xs
unfolding entries_at drop_entry
entries_at-drop_entry lane x xs [] h = cc
entries_at-drop_entry lane x xs (e ∷ es) h =
    ground (arith, Bool-cases (e.worktree == lane), entries_at-drop_entry lane x xs es)

find_entry-entries_at :
    (lane : String) (es : List Entry) → entries_at lane es ≡ [] → find_entry lane es ≡ none
unfolding entries_at find_entry
find_entry-entries_at lane [] h = refl
find_entry-entries_at lane (e ∷ es) h =
    ground (arith, Bool-cases (e.worktree == lane), find_entry-entries_at lane es)

find_entry-drop_entry :
    (lane k : String) (es : List Entry)
    → (lane == k) ≡ false
    → find_entry k (drop_entry lane es) ≡ find_entry k es
unfolding find_entry drop_entry
find_entry-drop_entry lane k [] other = refl
find_entry-drop_entry lane k (e ∷ es) other = ground (
  arith,
  eq_iff e.worktree lane,
  eq_iff e.worktree k,
  eq_iff lane k,
  find_entry-drop_entry lane k es,
)

module _ (host : Host) (machine now : String) where
  -- The receipt of a worktree that is gone has been taken out of the ledger.
  pub record Superseded (a : SupersededArgs) (x : SupersededAnswers) (file file' : Option Ledger)
      : Type 0 where
    pub payload : Ledger
    pub reads : read_ledger host machine now file ≡ ok payload
    pub entry : Entry
    pub only : IsOnly a.lane_key entry payload.entries
    pub active : entry.status ≡ "ACTIVE"
    pub named : IsNamed a entry
    pub gone : IsGone x entry.remote_recovery
    pub free : (x.registered ≡ false) × (x.held ≡ false) × (x.locked ≡ false)
    pub written : Ledger
    pub saved : file' ≡ some written
    pub custody :
        (k : String)
        → custody_at k written.entries
          ≡ (if a.lane_key == k then none else custody_at k payload.entries)

  superseded_receipt-entry :
      (a : SupersededArgs) (x : SupersededAnswers) (file : Option Ledger) (payload : Ledger)
      (e : Entry)
      → superseded_receipt host machine now a x file ≡ ok (payload, e)
      → (read_ledger host machine now file ≡ ok payload)
        × (unique_active (entries_at a.lane_key payload.entries) ≡ ok e)
        × (check_superseded a x e ≡ ok tt)
  unfolding superseded_receipt
  superseded_receipt-entry a x file payload e h = elim (Result-cases (check_paths a x)) [
    | inr (e', bad) ↦ absurd (ground (arith, bad))
    | inl (t0, e0) ↦ elim (Result-cases (read_ledger host machine now file)) [
      | inr (e', bad) ↦ absurd (ground (arith, e0, bad))
      | inl (l, e1) ↦ elim (Result-cases (unique_active (entries_at a.lane_key l.entries))) [
        | inr (e', bad) ↦ absurd (ground (arith, e0, e1, bad))
        | inl (y, e2) ↦ elim (Result-cases (check_superseded a x y)) [
          | inr (e', bad) ↦ absurd (ground (arith, e0, e1, e2, bad))
          | inl (t, e3) ↦
              let is_ledger : l ≡ payload = ground (arith, e0, e1, e2, e3) in
              let is_entry : y ≡ e = ground (arith, e0, e1, e2, e3) in
              (e1 ∙ ap ok is_ledger, rw (← is_ledger, ← is_entry) e2, rw (← is_entry) e3)
        ]
      ]
    ]
  ]

  drop_entry-custody_at :
      (lane k : String) (e : Entry) (es : List Entry)
      → entries_at lane es ≡ e ∷ []
      → custody_at k (drop_entry lane es) ≡ (if lane == k then none else custody_at k es)
  drop_entry-custody_at lane k e es alone =
      let none_left =
        find_entry-entries_at lane (drop_entry lane es)
          (entries_at-drop_entry lane e [] es alone) in
      elim (Bool-cases (lane == k)) [
        | inl same ↦ ground (arith, none_left, same, (eq_iff lane k).0 same)
        | inr other ↦ ground (arith, other, find_entry-drop_entry lane k es other)
      ]

  -- A close of a superseded receipt that succeeds found exactly one receipt of the worktree, ACTIVE and
  -- with the root, thread, objective and owner that are named; the worktree is not registered, held or
  -- locked; if the receipt has a recovery, the archive has it, and its branch, if it has one, is neither
  -- local nor tracked nor on a remote nor configured. The receipt is gone, and the custody of every
  -- other worktree is as it was.
  pub close_superseded-Superseded :
      (a : SupersededArgs) (x : SupersededAnswers) (file file' : Option Ledger)
      (classification : String)
      → close_superseded host machine now a x file ≡ (file', ok classification)
      → Superseded a x file file'
  unfolding close_superseded
  close_superseded-Superseded a x file file' classification h =
      elim (Result-cases (superseded_receipt host machine now a x file)) [
        | inr (e, bad) ↦ absurd (ground (arith, bad))
        | inl ((payload, entry), found) ↦
            let shorter : Ledger = record payload {
              entries = drop_entry a.lane_key payload.entries;
            } in
            elim (Result-cases (write_ledger host now shorter)) [
              | inr (e, bad) ↦ absurd (ground (arith, found, bad))
              | inl (written, wrote) ↦
                  let (reads, unique, checked) =
                    superseded_receipt-entry a x file payload entry found in
                  let (alone, active) =
                    unique_active-entry (entries_at a.lane_key payload.entries) entry unique in
                  let (named, gone, f1, f2, f3) =
                    check_superseded-IsGone a x entry {t = tt} checked in
                  record {
                    payload = payload;
                    reads = reads;
                    entry = entry;
                    only = entries_at-IsOnly a.lane_key entry payload.entries alone;
                    active = active;
                    named = is_named_receipt-IsNamed a entry named;
                    gone = gone;
                    free = (f1, f2, f3);
                    written = written;
                    saved = ground (arith, found, wrote);
                    custody = λ k.
                        written-custody_at host now shorter written k wrote
                        ∙ drop_entry-custody_at a.lane_key k entry payload.entries alone;
                  }
            ]
      ]
