-- ===== src/Custody/Absorption.antt =====
-- scripts/worktree_absorption_audit.py: `classify_commits`, whether a target has taken up the commits of a
-- lane. What Git answers is an argument, with empty lines removed; a command that fails where the code
-- expects success raises an error, and is left out.
use Prim.Native.Char.{code}
use Prim.Native.String.{String}
use opl_flow.Base.{
  ℕ, Bool, true, false, not, ◌&&◌, ◌==◌, ltb, eqb, ◌+◌, length, Option, none, some, List, [], ◌∷◌,
  is_empty, if◌then◌else◌,
}

-- the fields of an answer that decide
pub record Absorption : Type 0 where
  pub target_head : String
  pub lane_head : String
  pub classification : String
  pub cleanup_allowed : Bool
  pub lane_commit_count : ℕ
  pub merge_commit_count : ℕ
  pub equivalent_commit_count : ℕ
  pub unabsorbed_commit_count : ℕ

-- the return code of a call that looks for something: it is there, it is not, or another one
pub data Presence : Type 0 where
  present : Presence
  absent : Presence
  unverifiable : Presence

pub record CommitAnswers : Type 0 where
  pub target_head : String
  pub lane_head : String
  pub contained : Presence
  pub target_tree : String
  pub lane_tree : String
  pub merge_base : Option String
  -- a commit with its parents
  pub commit_rows : List (List String)
  pub cherry_rows : List String

unfoldable pub starts_with : ℕ → String → Bool
starts_with n String.[] = false
starts_with n (String.◌∷◌ c s) = eqb (code c) n

-- `sum(test(row) for row in rows)`
unfoldable pub count : {A : Type 0} → (A → Bool) → List A → ℕ
count test [] = 0
count test (x ∷ xs) = let rest = count test xs in if test x then 1 + rest else rest

-- `len(row) > 2`
abbrev pub is_merge : List String → Bool
is_merge row = ltb 2 (length row)

abbrev pub is_equivalent : String → Bool
is_equivalent line = starts_with b'-' line

abbrev pub is_unabsorbed : String → Bool
is_unabsorbed line = starts_with b'+' line

-- the answer before the commits are counted
unfoldable pub uncounted : CommitAnswers → String → Bool → Absorption
uncounted x classification cleanup_allowed = record {
  target_head = x.target_head;
  lane_head = x.lane_head;
  classification = classification;
  cleanup_allowed = cleanup_allowed;
  lane_commit_count = 0;
  merge_commit_count = 0;
  equivalent_commit_count = 0;
  unabsorbed_commit_count = 0;
}

unfoldable pub counted : CommitAnswers → String → Bool → Absorption
counted x classification cleanup_allowed = record {
  target_head = x.target_head;
  lane_head = x.lane_head;
  classification = classification;
  cleanup_allowed = cleanup_allowed;
  lane_commit_count = length x.commit_rows;
  merge_commit_count = count is_merge x.commit_rows;
  equivalent_commit_count = count is_equivalent x.cherry_rows;
  unabsorbed_commit_count = count is_unabsorbed x.cherry_rows;
}

-- from the merge base on
unfoldable pub classify_rows : CommitAnswers → Absorption
classify_rows x =
    if ltb 0 (count is_merge x.commit_rows)
    then counted x "owner_review" false
    else if not (is_empty x.cherry_rows) && not (ltb 0 (count is_unabsorbed x.cherry_rows))
    then counted x "patch_equivalent" true
    else counted x "ahead_not_absorbed" false

abbrev pub classify_base : CommitAnswers → Option String → Absorption
classify_base x none = uncounted x "owner_review" false
classify_base x (some merge_base) = classify_rows x

-- `none` for an AuditError
abbrev pub classify_contained : CommitAnswers → Presence → Option Absorption
classify_contained x present = some (uncounted x "exact_merged" true)
classify_contained x absent = some (
    if x.target_tree == x.lane_tree
    then uncounted x "tree_equivalent" true
    else classify_base x x.merge_base)
classify_contained x unverifiable = none

unfoldable pub classify_commits : CommitAnswers → Option Absorption
classify_commits x = classify_contained x x.contained
