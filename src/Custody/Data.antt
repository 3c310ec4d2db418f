-- ===== src/Custody/Data.antt =====
-- The data of the ownership ledger. A v1 ledger has the same fields under older names; the model
-- starts from the names of v2. A path is a text, and `resolve` of a `Host` makes it absolute.
use opl_flow.Base.{
  false, String, Bool, not, ◌&&◌, ◌||◌, ◌==◌, Option, none, some, List, [], ◌∷◌, member, sorted_set,
  is_empty, if◌then◌else◌, ok, err, raise_if, ◌>>=◌, ◌>>◌,
}
use opl_flow.Base.Results.{Result}
use opl_flow.Base.Text.{is_blank, is_empty_text}
use opl_flow.Base.Paths.{path_parts, starts_with_slash}

pub data LifecycleError : Type 0 where
  machine_required recorded_at_required field_required repo_root_not_absolute : LifecycleError
  status_unsupported write_set_blank duplicate_receipt : LifecycleError
  not_top_level not_registered canonical_checkout : LifecycleError
  path_not_relative write_set_empty identity_required : LifecycleError
  other_receipt unchanged_identity unchanged_objective : LifecycleError
  no_active_receipt identity_changed : LifecycleError
  dirty_worktree no_branch other_remote readback_mismatch : LifecycleError
  target_not_current not_cleanup_ready detached_or_canonical recovery_mismatch : LifecycleError
  remote_branch_mismatch readiness_lost index_target_reappeared quarantine_remains : LifecycleError
  reason_required superseded_present superseded_canonical no_holder_scan : LifecycleError
  no_unique_receipt superseded_identity recovery_branch_invalid superseded_registered :
      LifecycleError
  superseded_ref_present ref_unverifiable superseded_config superseded_held git_locked :
      LifecycleError
  archive_required archive_not_required receipt_remained : LifecycleError
  invalid_branch recovery_unverified patch_unverifiable not_absorbed ancestry_unverifiable :
      LifecycleError
  -- a call of Git, of the audit or of a step of the index detach that fails
  call_failed : String → LifecycleError

-- the four keys that say whose receipt an entry is
pub record Identity : Type 0 where
  pub custody_thread_id : String
  pub objective_ref : String
  pub custody_owner : String
  pub custody_executor : String

pub record Overlap : Type 0 where
  pub worktree : String
  pub custody_thread_id : String
  pub objective_ref : String
  pub custody_owner : String
  pub paths : List String

-- what a checkpoint records; a receipt from elsewhere may leave the branch out
pub record RemoteRecovery : Type 0 where
  pub branch : Option String
  pub commit : String
  pub tree : String

-- the text is there, and is the one given
abbrev pub has_text : Option String → String → Bool
has_text none t = false
has_text (some s) t = s == t

pub record Transfer : Type 0 where
  pub recorded_at : String
  pub reason : String
  pub before : Identity
  pub before_next_action : String
  pub after : Identity
  pub after_next_action : String

pub record Rebinding : Type 0 where
  pub recorded_at : String
  pub reason : String
  pub actor : Identity
  pub after_objective_ref : String
  pub before_next_action : String
  pub after_next_action : String

pub record Entry : Type 0 where
  pub worktree : String
  pub repo_root : Option String
  pub identity : Identity
  pub status : String
  pub custody_next_action : String
  pub write_set : List String
  pub integration_overlaps : List Overlap
  pub remote_recovery : Option RemoteRecovery
  pub custody_transfers : List Transfer
  pub objective_rebindings : List Rebinding
  pub updated_at : Option String

pub record Ledger : Type 0 where
  pub machine : String
  pub recorded_at : String
  pub entries : List Entry

-- What the code asks of the file system and of Git.
pub record Host : Type 0 where
  -- `Path(p).expanduser().resolve()`, as a text
  pub resolve : String → String
  -- `Path(p).expanduser().is_absolute()`
  pub is_absolute : String → Bool
  pub exists : String → Bool
  -- `common_dir`
  pub common_dir : String → String

-- an equality of the two dicts
unfoldable pub same_identity : Identity → Identity → Bool
same_identity a b =
    a.custody_thread_id == b.custody_thread_id
    && a.objective_ref == b.objective_ref
    && a.custody_owner == b.custody_owner
    && a.custody_executor == b.custody_executor

unfoldable pub is_blank_identity : Identity → Bool
is_blank_identity a =
    is_blank a.custody_thread_id
    || is_blank a.objective_ref
    || is_blank a.custody_owner
    || is_blank a.custody_executor

unfoldable pub is_active_entry : Entry → Bool
is_active_entry e = e.status == "ACTIVE"

-- `next((item for item in entries if item["worktree"] == lane), None)`
unfoldable pub find_entry : String → List Entry → Option Entry
find_entry lane [] = none
find_entry lane (e ∷ es) = if e.worktree == lane then some e else find_entry lane es

-- a change of the entry that `find_entry` finds
unfoldable pub put_entry : Entry → List Entry → List Entry
put_entry x [] = []
put_entry x (e ∷ es) = if e.worktree == x.worktree then x ∷ es else e ∷ put_entry x es

-- `PurePosixPath(value).parts` of a relative path
unfoldable pub pure_parts : List String → List String
pure_parts [] = []
pure_parts (p ∷ ps) =
    let rest = pure_parts ps in if is_empty_text p || p == "." then rest else p ∷ rest

abbrev pub append_text : String → String → String
append_text String.[] t = t
append_text (String.◌∷◌ c s) t = String.◌∷◌ c (append_text s t)

-- `str(PurePosixPath(value))`
unfoldable pub join_path : List String → String
join_path [] = ""
join_path (p ∷ []) = p
join_path (p ∷ q ∷ ps) = append_text p (String.◌∷◌ "/" (join_path (q ∷ ps)))

unfoldable pub normal_paths : List String → Result LifecycleError (List String)
normal_paths [] = ok []
normal_paths (value ∷ values) = do
  let parts = pure_parts (path_parts value)
  raise_if (is_blank value || starts_with_slash value || member ".." parts || is_empty parts)
      path_not_relative
  rest ← normal_paths values
  ok (join_path parts ∷ rest)

unfoldable pub normalize_write_set : List String → Result LifecycleError (List String)
normalize_write_set values = do
  normalized ← normal_paths values
  raise_if (is_empty normalized) write_set_empty
  ok (sorted_set normalized)

-- `resolve_repo`, on the top level and the worktrees that Git reports
unfoldable pub resolve_repo :
    String → String → List String → Result LifecycleError (String × String)
resolve_repo worktree top [] = do raise_if (not (top == worktree)) not_top_level; err not_registered
resolve_repo worktree top (canonical ∷ others) = do
  raise_if (not (top == worktree)) not_top_level
  raise_if (not (member worktree (canonical ∷ others))) not_registered
  raise_if (worktree == canonical) canonical_checkout
  ok (canonical, worktree)
