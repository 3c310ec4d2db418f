-- ===== src/Custody/Transfers.antt =====
-- Whose receipt a worktree has, before an operation and after it.
use opl_flow.Base.{
  String, true, false, ◌==◌, ◌≡◌, ◌≢◌, ◌⊎◌, refl, sym, ◌∙◌, ap, inl, inr, Option, none, some, List,
  [], ◌∷◌, ◌++◌, arith, eq_iff, if◌then◌else◌, ok, Result-cases, Option-cases, Bool-cases,
}
use opl_flow.Base.Text.{strip, is_space}
use opl_flow.Custody.Data.{
  has_text, RemoteRecovery, Identity, Overlap, Entry, Ledger, Host, same_identity, is_active_entry,
  find_entry, put_entry, normalize_write_set,
}
use opl_flow.Custody.Ledger.{read_ledger, write_ledger, pruned}
use opl_flow.Custody.Receipts.{
  PushAnswers, is_other_commit, action_or, found_active, checkpoint, register, transfer_owner,
  amend_objective,
}
use opl_flow.Custody.Changes.{
  Registration, registered_entry, registered_entries, integration_overlaps, expected_entry,
  TransferRequest, new_identity, transferred_entry, retold, retold_all, Amendment, amended_entry,
  rebound, rebound_all,
}
use opl_flow.Custody.Written.{
  changed, find_entry-worktree, find_entry-put_entry, find_entry-append, find_entry-write_ledger,
}

-- an entry, but for the overlaps that it reports
abbrev pub custody_of : Entry → Entry
custody_of e = record e { integration_overlaps = [] }

abbrev pub custody_at : String → List Entry → Option Entry
custody_at k es = changed custody_of (find_entry k es)

same_identity-eq : (a b : Identity) → same_identity a b ≡ true → a ≡ b
unfolding same_identity
same_identity-eq a b h = ground (
  arith,
  eq_iff a.custody_thread_id b.custody_thread_id,
  eq_iff a.objective_ref b.objective_ref,
  eq_iff a.custody_owner b.custody_owner,
  eq_iff a.custody_executor b.custody_executor,
)

pub written-custody_at :
    (host : Host) (now : String) (l l' : Ledger) (k : String)
    → write_ledger host now l ≡ ok l'
    → custody_at k l'.entries ≡ custody_at k l.entries
unfolding pruned
written-custody_at host now l l' k h =
    ground (arith, find_entry-write_ledger host now l l' k h, Option-cases (find_entry k l.entries))

retold_all-custody_at :
    (lane k : String) (i : Identity) (es : List Entry)
    → custody_at k (retold_all lane i es) ≡ custody_at k es
unfolding find_entry retold_all retold
retold_all-custody_at lane k i [] = refl
retold_all-custody_at lane k i (e ∷ es) =
    ground (arith, Bool-cases (e.worktree == k), retold_all-custody_at lane k i es)

rebound_all-custody_at :
    (lane objective k : String) (es : List Entry)
    → custody_at k (rebound_all lane objective es) ≡ custody_at k es
unfolding find_entry rebound_all rebound
rebound_all-custody_at lane objective k [] = refl
rebound_all-custody_at lane objective k (e ∷ es) =
    ground (arith, Bool-cases (e.worktree == k), rebound_all-custody_at lane objective k es)

put_entry-custody_at :
    (k lane : String) (x old : Entry) (es : List Entry)
    → x.worktree ≡ lane
    → find_entry lane es ≡ some old
    → custody_at k (put_entry x es) ≡ (if lane == k then some (custody_of x) else custody_at k es)
put_entry-custody_at k lane x old es same h =
    ground (arith, find_entry-put_entry k x old es, Bool-cases (lane == k))

append-custody_at :
    (k lane : String) (x : Entry) (es : List Entry)
    → x.worktree ≡ lane
    → find_entry lane es ≡ none
    → custody_at k (es ++ x ∷ []) ≡ (if lane == k then some (custody_of x) else custody_at k es)
append-custody_at k lane x es same h =
    ground (arith, find_entry-append k x es, Bool-cases (lane == k))

registered_entry-fields :
    (q : Registration) (o : Option Entry) (desired : List String) (overlaps : List Overlap)
    (x : Entry) (es : List Entry)
    → find_entry q.lane es ≡ o
    → registered_entry q o desired overlaps ≡ ok x
    → (x.worktree ≡ q.lane)
      × (x.identity ≡ q.identity)
      × (x.status ≡ "ACTIVE")
      × (x.write_set ≡ desired)
unfolding registered_entry
registered_entry-fields q none desired overlaps x es at h = ground arith
registered_entry-fields q (some e) desired overlaps x es at h =
    ground (arith, same_identity-eq e.identity q.identity, find_entry-worktree q.lane es e at)

registered_entries-custody_at :
    (k lane : String) (x : Entry) (o : Option Entry) (es : List Entry)
    → x.worktree ≡ lane
    → find_entry lane es ≡ o
    → custody_at k (registered_entries o x es)
      ≡ (if lane == k then some (custody_of x) else custody_at k es)
unfolding registered_entries
registered_entries-custody_at k lane x none es same h = append-custody_at k lane x es same h
registered_entries-custody_at k lane x (some e) es same h =
    put_entry-custody_at k lane x e es same h

expected_entry-fields :
    (o : Option Entry) (expected : Identity) (e : Entry)
    → expected_entry o expected ≡ ok e
    → (o ≡ some e) × (is_active_entry e ≡ true) × (e.identity ≡ expected)
unfolding expected_entry
expected_entry-fields none expected e h = absurd (ground arith)
expected_entry-fields (some f) expected e h = ground (arith, same_identity-eq f.identity expected)

-- A receipt that a registration takes over is the caller's.
old_receipt :
    (q : Registration) (o : Option Entry) (desired : List String) (overlaps : List Overlap)
    (x : Entry)
    → registered_entry q o desired overlaps ≡ ok x
    → (o ≡ none) ⊎ ((e : Entry) × (o ≡ some e) × (e.identity ≡ q.identity))
unfolding registered_entry
old_receipt q none desired overlaps x h = inl refl
old_receipt q (some e) desired overlaps x h =
    inr (e, refl, ground (arith, same_identity-eq e.identity q.identity))

different_identity : (a b : Identity) → same_identity a b ≡ false → b ≢ a
unfolding same_identity
different_identity a b h same = ground (
  arith,
  same,
  eq_iff a.custody_thread_id b.custody_thread_id,
  eq_iff a.objective_ref b.objective_ref,
  eq_iff a.custody_owner b.custody_owner,
  eq_iff a.custody_executor b.custody_executor,
)

abbrev pub with_objective : Identity → String → Identity
with_objective i objective = record i { objective_ref = objective }

abbrev pub recovery_of : PushAnswers → RemoteRecovery
recovery_of git = record { branch = some git.branch; commit = git.commit; tree = git.tree }

-- the entry after a checkpoint
abbrev pub pushed_entry : Option String → PushAnswers → Entry → Entry
pushed_entry next_action git e = record e {
  remote_recovery = some (recovery_of git);
  custody_next_action = action_or next_action e.custody_next_action;
}

pub has_text-some : (o : Option String) (t : String) → has_text o t ≡ true → o ≡ some t
has_text-some none t h = cc
has_text-some (some s) t h = ap some ((eq_iff s t).0 h)

wire_commit-same : (o : Option String) (c : String) → is_other_commit o c ≡ false → o ≡ some c
wire_commit-same none c h = cc
wire_commit-same (some w) c h = ap some ((eq_iff w c).0 (ground arith))

-- an operation has put the entry at the worktree, and left the custody of every other as it was
pub record Puts (lane : String) (x : Entry) (before after : Ledger) : Type 0 where
  pub custody :
      (k : String)
      → custody_at k after.entries
        ≡ (if lane == k then some (custody_of x) else custody_at k before.entries)

-- The receipt after a transfer: what it keeps, and the record of the transfer.
pub record Transferred (q : TransferRequest) (now : String) (e x : Entry) : Type 0 where
  pub was_active : e.status ≡ "ACTIVE"
  pub thread : x.identity.custody_thread_id ≡ q.new_thread_id
  pub objective : x.identity.objective_ref ≡ e.identity.objective_ref
  pub owner : x.identity.custody_owner ≡ q.new_owner
  pub executor : x.identity.custody_executor ≡ q.new_execution_owner
  pub worktree : x.worktree ≡ e.worktree
  pub root : x.repo_root ≡ e.repo_root
  pub status : x.status ≡ e.status
  pub paths : x.write_set ≡ e.write_set
  pub recovery : x.remote_recovery ≡ e.remote_recovery
  pub action : x.custody_next_action ≡ q.next_action
  pub rebindings : x.objective_rebindings ≡ e.objective_rebindings
  pub transfers :
      x.custody_transfers
      ≡ e.custody_transfers
        ++ record {
          recorded_at = now;
          reason = strip is_space q.reason;
          before = e.identity;
          before_next_action = e.custody_next_action;
          after = x.identity;
          after_next_action = q.next_action;
        }
          ∷ []

module _ (host : Host) (machine now : String) (file : Option Ledger) (l l' : Ledger) (x : Entry)
    (reads : read_ledger host machine now file ≡ ok l) where
  -- A registration that succeeds makes the caller's receipt the ACTIVE one of its worktree, with
  -- the normal form of the write set, and leaves the custody of every other worktree as it was. A
  -- receipt that was there before is the caller's own.
  pub register-Puts :
      (q : Registration)
      → register host machine now q file ≡ ok (x, l')
      → Puts q.lane x l l'
        × (x.identity ≡ q.identity)
        × (x.status ≡ "ACTIVE")
        × (normalize_write_set q.write_set ≡ ok x.write_set)
        × ((find_entry q.lane l.entries ≡ none)
            ⊎ ((e : Entry) × (find_entry q.lane l.entries ≡ some e) × (e.identity ≡ q.identity)))
  unfolding register
  register-Puts q h = elim (Result-cases (normalize_write_set q.write_set)) [
    | inr (bad, e) ↦ absurd (ground (arith, e))
    | inl (desired, set) ↦
        let o = find_entry q.lane l.entries in
        let overlaps = integration_overlaps host l.entries q.lane desired in
        elim (Result-cases (registered_entry q o desired overlaps)) [
          | inr (bad, e) ↦ absurd (ground (arith, set, reads, e))
          | inl (y, made) ↦
              let changed_ledger : Ledger = record l {
                entries = registered_entries o y l.entries;
              } in
              elim (Result-cases (write_ledger host now changed_ledger)) [
                | inr (bad, e) ↦ absurd (ground (arith, set, reads, made, e))
                | inl (w, wrote) ↦
                    let same : y ≡ x = ground (arith, set, reads, made, wrote) in
                    let same' : w ≡ l' = ground (arith, set, reads, made, wrote) in
                    let (lane, mine, active, paths) =
                      registered_entry-fields q o desired overlaps y l.entries refl made in
                    (
                      record {
                        custody = λ k. rw (sym same) (
                            rw (sym same') (
                              written-custody_at host now changed_ledger w k wrote
                              ∙ registered_entries-custody_at k q.lane y o l.entries lane refl));
                      },
                      ground (arith, same, mine),
                      ground (arith, same, active),
                      ground (arith, same, paths, set),
                      old_receipt q o desired overlaps y made,
                    )
              ]
        ]
  ]

  -- A transfer that succeeds found the ACTIVE receipt of exactly the expected thread, objective,
  -- owner and executor. It gives the worktree to the new thread, owner and executor under the same
  -- objective, keeps its write set, its status and its recovery, has one more transfer at the end of
  -- its transfers, with the reason, both identities and both next actions, and leaves the custody of
  -- every other worktree as it was.
  pub transfer_owner-Puts :
      (q : TransferRequest)
      → transfer_owner host machine now q file ≡ ok (x, l')
      → (e : Entry) × (find_entry q.lane l.entries ≡ some e)
        × (is_active_entry e ≡ true)
        × (e.identity ≡ q.expected)
        × Transferred q now e x
        × (x.identity ≡ new_identity q)
        × (new_identity q ≢ q.expected)
        × Puts q.lane x l l'
  unfolding transfer_owner
  transfer_owner-Puts q h =
      elim (Result-cases (expected_entry (find_entry q.lane l.entries) q.expected)) [
        | inr (bad, e) ↦ absurd (ground (arith, reads, e))
        | inl (e, there) ↦
            let moved = transferred_entry q now e in
            let changed_ledger : Ledger = record l {
              entries = retold_all q.lane (new_identity q) (put_entry moved l.entries);
            } in
            elim (Result-cases (write_ledger host now changed_ledger)) [
              | inr (bad, f) ↦ absurd (ground (arith, reads, there, f))
              | inl (w, wrote) ↦
                  let same : x ≡ retold q.lane (new_identity q) moved =
                    ground (arith, reads, there, wrote) in
                  let same' : w ≡ l' = ground (arith, reads, there, wrote) in
                  let (at, active, mine) =
                    expected_entry-fields (find_entry q.lane l.entries) q.expected e there in
                  let kept : custody_of x ≡ custody_of moved =
                    unfold retold in ap custody_of same in
                  (
                    e,
                    at,
                    active,
                    mine,
                    unfold retold transferred_entry is_active_entry in
                        record {
                          was_active = (eq_iff e.status "ACTIVE").0 active;
                          thread = ap (λ y. y.identity.custody_thread_id) same;
                          objective = rw (same, mine) refl;
                          owner = ap (λ y. y.identity.custody_owner) same;
                          executor = ap (λ y. y.identity.custody_executor) same;
                          worktree = ap (λ y. y.worktree) same;
                          root = ap (λ y. y.repo_root) same;
                          status = ap (λ y. y.status) same;
                          paths = ap (λ y. y.write_set) same;
                          recovery = ap (λ y. y.remote_recovery) same;
                          action = ap (λ y. y.custody_next_action) same;
                          rebindings = ap (λ y. y.objective_rebindings) same;
                          transfers = rw (same, mine) refl;
                        },
                    unfold retold transferred_entry in ap (λ y. y.identity) same,
                    different_identity q.expected (new_identity q) (ground (arith, reads, there)),
                    record {
                      custody = λ k. rw kept (
                          rw (sym same') (
                            written-custody_at host now changed_ledger w k wrote
                            ∙ retold_all-custody_at q.lane k (new_identity q)
                                (put_entry moved l.entries)
                            ∙ put_entry-custody_at k q.lane moved e l.entries
                                (unfold transferred_entry in
                                  find_entry-worktree q.lane l.entries e at)
                                at));
                    },
                  )
            ]
      ]

  -- An amendment that succeeds found the ACTIVE receipt of exactly the expected identity. It gives
  -- that receipt the new objective, which differs from the old one, keeps its owner, and leaves the
  -- custody of every other worktree as it was.
  pub amend_objective-Puts :
      (q : Amendment)
      → amend_objective host machine now q file ≡ ok (x, l')
      → (e : Entry) × (find_entry q.lane l.entries ≡ some e)
        × (is_active_entry e ≡ true)
        × (e.identity ≡ q.expected)
        × (x.identity ≡ with_objective q.expected q.new_objective_id)
        × (q.new_objective_id ≢ q.expected.objective_ref)
        × Puts q.lane x l l'
  unfolding amend_objective
  amend_objective-Puts q h =
      elim (Result-cases (expected_entry (find_entry q.lane l.entries) q.expected)) [
        | inr (bad, e) ↦ absurd (ground (arith, reads, e))
        | inl (e, there) ↦
            let amended = amended_entry q now e in
            let changed_ledger : Ledger = record l {
              entries = rebound_all q.lane q.new_objective_id (put_entry amended l.entries);
            } in
            elim (Result-cases (write_ledger host now changed_ledger)) [
              | inr (bad, f) ↦ absurd (ground (arith, reads, there, f))
              | inl (w, wrote) ↦
                  let same : x ≡ amended = ground (arith, reads, there, wrote) in
                  let same' : w ≡ l' = ground (arith, reads, there, wrote) in
                  let (at, active, mine) =
                    expected_entry-fields (find_entry q.lane l.entries) q.expected e there in
                  (
                    e,
                    at,
                    active,
                    mine,
                    unfold amended_entry in
                        (ap (λ y. y.identity) same
                          ∙ ap (λ i. with_objective i q.new_objective_id) mine),
                    (λ equal. ground (
                      arith,
                      reads,
                      there,
                      equal,
                      eq_iff q.expected.objective_ref q.new_objective_id,
                    )),
                    record {
                      custody = λ k. rw same (
                          rw (sym same') (
                            written-custody_at host now changed_ledger w k wrote
                            ∙ rebound_all-custody_at q.lane q.new_objective_id k
                                (put_entry amended l.entries)
                            ∙ put_entry-custody_at k q.lane amended e l.entries
                                (unfold amended_entry in find_entry-worktree q.lane l.entries e at)
                                at));
                    },
                  )
            ]
      ]

module _ (host : Host) (machine now : String) (file : Option Ledger) (l l' : Ledger)
    (reads : read_ledger host machine now file ≡ ok l) where
  -- A checkpoint that succeeds found a clean worktree on a branch, the canonical remote, and an
  -- ACTIVE receipt, and the remote has the commit of the worktree. It records the branch, the commit
  -- and the tree in that receipt, keeps whose receipt it is, and leaves the custody of every other
  -- worktree as it was.
  pub checkpoint-Puts :
      (lane remote : String) (next_action : Option String) (git : PushAnswers)
      (recovery : RemoteRecovery)
      → checkpoint host machine now lane remote next_action git file ≡ ok (recovery, l')
      → (git.dirty ≡ false)
        × (remote ≡ git.target_remote)
        × (git.wire_commit ≡ some git.commit)
        × (recovery ≡ recovery_of git)
        × (e : Entry) × (find_entry lane l.entries ≡ some e)
        × (is_active_entry e ≡ true)
        × Puts lane (pushed_entry next_action git e) l l'
  unfolding checkpoint found_active
  checkpoint-Puts lane remote next_action git recovery h =
      elim (Option-cases (find_entry lane l.entries)) [
        | inl none_there ↦ absurd (ground (arith, reads, none_there))
        | inr (e, at) ↦
            let pushed = pushed_entry next_action git e in
            let changed_ledger : Ledger = record l { entries = put_entry pushed l.entries } in
            elim (Result-cases (write_ledger host now changed_ledger)) [
              | inr (bad, f) ↦ absurd (ground (arith, reads, at, f))
              | inl (w, wrote) ↦
                  let same' : w ≡ l' = ground (arith, reads, at, wrote) in
                  (
                    ground arith,
                    ground (arith, eq_iff remote git.target_remote),
                    wire_commit-same git.wire_commit git.commit (ground (arith, reads, at)),
                    ground (arith, reads, at, wrote),
                    e,
                    at,
                    ground (arith, reads, at),
                    record {
                      custody = λ k. rw (sym same') (
                          written-custody_at host now changed_ledger w k wrote
                          ∙ put_entry-custody_at k lane pushed e l.entries
                              (find_entry-worktree lane l.entries e at) at);
                    },
                  )
            ]
      ]
