-- ===== src/Custody/Tests/Absorption.antt =====
-- Answers of the absorption audit at concrete commits.
use opl_flow.Base.{◌↔◌, inr, true, false, ◌≡◌, refl, some, [], ◌∷◌}
use opl_flow.Custody.Absorption.{
  absent, CommitAnswers, starts_with, count, uncounted, counted, classify_rows, classify_commits,
}
use opl_flow.Custody.TakenUp.{AllEquivalent, is_strict-AllEquivalent}
use opl_flow.Custody.Stale.{is_strict}

unfoldable audit_code : Unit {0}
unfolding starts_with count uncounted counted classify_rows classify_commits
audit_code = tt

abbrev two_commits : CommitAnswers
two_commits = record {
  target_head = "m1";
  lane_head = "c2";
  contained = absent;
  target_tree = "t1";
  lane_tree = "t2";
  merge_base = some "m0";
  commit_rows = ("c2" ∷ "c1" ∷ []) ∷ ("c1" ∷ "m0" ∷ []) ∷ [];
  cherry_rows = "- c1" ∷ "- c2" ∷ [];
}

-- a commit that the target has not, and a merge
left_over :
    (classify_commits (record two_commits { cherry_rows = "- c1" ∷ "+ c2" ∷ [] })
      ≡ some (record (counted two_commits "ahead_not_absorbed" false) {
        equivalent_commit_count = 1;
        unabsorbed_commit_count = 1;
      }))
    × (classify_commits (record two_commits { commit_rows = ("c2" ∷ "c1" ∷ "m1" ∷ []) ∷ [] })
        ≡ some (record (counted two_commits "owner_review" false) {
          lane_commit_count = 1;
          merge_commit_count = 1;
        }))
unfolding audit_code
left_over = (refl, refl)

is_strict-AllEquivalent_example :
    (is_strict "m1" "c2" (counted two_commits "patch_equivalent" true) ≡ true)
    ↔ AllEquivalent two_commits
unfolding audit_code
is_strict-AllEquivalent_example =
    is_strict-AllEquivalent two_commits (inr refl, (inr refl, tt))
      (counted two_commits "patch_equivalent" true) refl
