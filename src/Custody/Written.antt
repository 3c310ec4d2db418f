-- ===== src/Custody/Written.antt =====
-- What stands in a ledger that has been written.
use opl_flow.Base.{
  String, ◌==◌, ◌≡◌, refl, ◌∙◌, ap, Option, none, some, List, [], ◌∷◌, ◌++◌, arith, eq_iff,
  if◌then◌else◌, ok, Bool-cases,
}
use opl_flow.Custody.Data.{Entry, Ledger, Host, find_entry, put_entry}
use opl_flow.Custody.Ledger.{
  normalize_ledger, active_worktrees, pruned, pruned_all, prune_orphaned_integration_overlaps,
  insert_entry, sorted_entries, write_ledger,
}

-- `f(entry)`, if there is one
abbrev pub changed : (Entry → Entry) → Option Entry → Option Entry
changed f none = none
changed f (some e) = some (f e)

find_entry-insert_entry :
    (k : String) (x : Entry) (es : List Entry)
    → find_entry k (insert_entry x es) ≡ (if x.worktree == k then some x else find_entry k es)
unfolding find_entry insert_entry
find_entry-insert_entry k x [] = refl
find_entry-insert_entry k x (e ∷ es) = ground (
  arith,
  eq_iff x.worktree k,
  eq_iff e.worktree k,
  eq_iff e.worktree x.worktree,
  find_entry-insert_entry k x es,
)

-- Sorting changes the place of an entry and not the entry that is found.
find_entry-sorted_entries :
    (k : String) (es : List Entry) → find_entry k (sorted_entries es) ≡ find_entry k es
unfolding find_entry sorted_entries
find_entry-sorted_entries k [] = refl
find_entry-sorted_entries k (e ∷ es) =
    ground (arith, find_entry-insert_entry k e (sorted_entries es), find_entry-sorted_entries k es)

find_entry-pruned_all :
    (k : String) (active : List String) (es : List Entry)
    → find_entry k (pruned_all active es) ≡ changed (λ e. pruned active e) (find_entry k es)
unfolding find_entry pruned_all pruned
find_entry-pruned_all k active [] = refl
find_entry-pruned_all k active (e ∷ es) =
    ground (arith, Bool-cases (e.worktree == k), find_entry-pruned_all k active es)

pub find_entry-worktree :
    (k : String) (es : List Entry) (e : Entry) → find_entry k es ≡ some e → e.worktree ≡ k
unfolding find_entry
find_entry-worktree k [] e h = cc
find_entry-worktree k (x ∷ es) e h = ground (arith, eq_iff x.worktree k, find_entry-worktree k es e)

pub find_entry-put_entry :
    (k : String) (x old : Entry) (es : List Entry)
    → find_entry x.worktree es ≡ some old
    → find_entry k (put_entry x es) ≡ (if x.worktree == k then some x else find_entry k es)
unfolding find_entry put_entry
find_entry-put_entry k x old [] h = cc
find_entry-put_entry k x old (e ∷ es) h = ground (
  arith,
  eq_iff e.worktree x.worktree,
  eq_iff x.worktree k,
  eq_iff e.worktree k,
  find_entry-put_entry k x old es,
)

pub find_entry-append :
    (k : String) (x : Entry) (es : List Entry)
    → find_entry x.worktree es ≡ none
    → find_entry k (es ++ x ∷ []) ≡ (if x.worktree == k then some x else find_entry k es)
unfolding find_entry
find_entry-append k x [] h = refl
find_entry-append k x (e ∷ es) h = ground (
  arith,
  eq_iff e.worktree x.worktree,
  eq_iff x.worktree k,
  eq_iff e.worktree k,
  find_entry-append k x es,
)

module _ (host : Host) (now : String) (l l' : Ledger) where
  write_ledger-entries :
      write_ledger host now l ≡ ok l'
      → l'.entries ≡ sorted_entries (prune_orphaned_integration_overlaps l.entries)
  unfolding write_ledger normalize_ledger
  write_ledger-entries h = ground arith

  -- A ledger that is written holds for each worktree the entry that it had, less the overlaps with
  -- worktrees that are not ACTIVE.
  pub find_entry-write_ledger :
      (k : String)
      → write_ledger host now l ≡ ok l'
      → find_entry k l'.entries
        ≡ changed (λ e. pruned (active_worktrees l.entries) e) (find_entry k l.entries)
  unfolding prune_orphaned_integration_overlaps
  find_entry-write_ledger k h =
      ap (λ es. find_entry k es) (write_ledger-entries h)
      ∙ find_entry-sorted_entries k (prune_orphaned_integration_overlaps l.entries)
      ∙ find_entry-pruned_all k (active_worktrees l.entries) l.entries
