-- ===== src/Custody/TakenUp.antt =====
-- When an answer of the absorption audit passes the strict test of a stale close.
use Prim.Native.String.{String}
use opl_flow.Base.{
  true, false, ◌≡◌, ◌≢◌, ◌⊎◌, ◌↔◌, refl, inl, inr, ◌==◌, ltb, ◌≤◌, ◌<◌, length, Option, none, some,
  List, [], ◌∷◌, All, is_empty, not, ◌&&◌, arith, eq_iff, eq_refl, Bool-cases,
}
use opl_flow.Custody.Absorption.{
  Absorption, Presence, present, absent, unverifiable, CommitAnswers, starts_with, count, is_merge,
  is_equivalent, is_unabsorbed, uncounted, counted, classify_rows, classify_base,
  classify_contained, classify_commits,
}
use opl_flow.Custody.Stale.{is_strict}

-- Each line of `git cherry` starts with a plus or a minus.
abbrev pub IsMarked : List String → Type 0
IsMarked lines = All (λ line. (starts_with 43 line ≡ true) ⊎ (starts_with 45 line ≡ true)) lines

-- The commit is not in the target, nor is its tree that of the target; there is a commit since the merge
-- base, none is a merge, and each line of `git cherry` starts with a minus, one for each commit.
pub record AllEquivalent (x : CommitAnswers) : Type 0 where
  pub outside : x.contained ≡ absent
  pub other_tree : x.target_tree ≢ x.lane_tree
  pub base : String
  pub based : x.merge_base ≡ some base
  pub some_commit : 0 < length x.commit_rows
  pub plain : All (λ row. length row ≤ 2) x.commit_rows
  pub minus : All (λ line. starts_with 45 line ≡ true) x.cherry_rows
  pub complete : length x.cherry_rows ≡ length x.commit_rows

is_merge-All :
    (rows : List (List String)) → (count is_merge rows ≡ 0) ↔ All (λ row. length row ≤ 2) rows
unfolding count
is_merge-All [] = (λ h. tt, λ h. refl)
is_merge-All (row ∷ rows) = (
  λ h. elim (Bool-cases (is_merge row)) [
    | inl merge ↦ absurd (ground (arith, merge))
    | inr plain ↦ (ground (arith, plain), (is_merge-All rows).0 (ground (arith, plain)))
  ],
  λ h. ground (arith, h.0, (is_merge-All rows).1 h.1),
)

-- a line does not start with both marks
not_both : (line : String) → starts_with 43 line ≡ true → starts_with 45 line ≡ false
unfolding starts_with
not_both String.[] h = refl
not_both (String.◌∷◌ c s) h = ground arith

is_unabsorbed-All :
    (lines : List String)
    → IsMarked lines
    → (count is_unabsorbed lines ≡ 0) ↔ All (λ line. starts_with 45 line ≡ true) lines
unfolding count
is_unabsorbed-All [] m = (λ h. tt, λ h. refl)
is_unabsorbed-All (line ∷ lines) (inl plus, m) =
    (λ h. absurd (ground (arith, plus)), λ h. absurd (ground (arith, h.0, not_both line plus)))
is_unabsorbed-All (line ∷ lines) (inr minus, m) = (
  λ h. elim (Bool-cases (is_unabsorbed line)) [
    | inl plus ↦ absurd (ground (arith, plus))
    | inr other ↦ (minus, (is_unabsorbed-All lines m).0 (ground (arith, other)))
  ],
  λ h. elim (Bool-cases (is_unabsorbed line)) [
    | inl plus ↦ absurd (ground (arith, minus, not_both line plus))
    | inr other ↦ ground (arith, other, (is_unabsorbed-All lines m).1 h.1)
  ],
)

is_equivalent-All :
    (lines : List String)
    → All (λ line. starts_with 45 line ≡ true) lines
    → count is_equivalent lines ≡ length lines
unfolding count
is_equivalent-All [] h = refl
is_equivalent-All (line ∷ lines) h = ground (arith, h.0, is_equivalent-All lines h.1)

filled : (lines : List String) → 0 < length lines → is_empty lines ≡ false
filled [] h = absurd (omega arith)
filled (line ∷ lines) h = refl

module _ (x : CommitAnswers) (marked : IsMarked x.cherry_rows) where
  -- from the merge base on
  rows-AllEquivalent :
      (base : String)
      → x.contained ≡ absent
      → x.target_tree ≢ x.lane_tree
      → x.merge_base ≡ some base
      → is_strict x.target_head x.lane_head (classify_rows x) ≡ true
      → AllEquivalent x
  unfolding is_strict classify_rows counted
  rows-AllEquivalent base outside other based h =
      elim (Bool-cases (ltb 0 (count is_merge x.commit_rows))) [
        | inl merge ↦ absurd (ground (arith, merge))
        | inr plain ↦
            elim (Bool-cases
              (not (is_empty x.cherry_rows) && not (ltb 0 (count is_unabsorbed x.cherry_rows)))) [
                | inr left ↦ absurd (ground (arith, plain, left))
                | inl taken ↦
                    let minus =
                      (is_unabsorbed-All x.cherry_rows marked).0 (ground (arith, taken)) in
                    record {
                      outside = outside;
                      other_tree = other;
                      base = base;
                      based = based;
                      some_commit = ground (arith, plain, taken);
                      plain = (is_merge-All x.commit_rows).0 (ground (arith, plain));
                      minus = minus;
                      complete =
                          ground (arith, plain, taken, is_equivalent-All x.cherry_rows minus);
                    }
              ]
      ]

  base-AllEquivalent :
      (o : Option String)
      → x.merge_base ≡ o
      → x.contained ≡ absent
      → x.target_tree ≢ x.lane_tree
      → is_strict x.target_head x.lane_head (classify_base x o) ≡ true
      → AllEquivalent x
  unfolding is_strict uncounted
  base-AllEquivalent none based outside other h = absurd (ground arith)
  base-AllEquivalent (some base) based outside other h =
      rows-AllEquivalent base outside other based h

  contained-AllEquivalent :
      (c : Presence) (p : Absorption)
      → x.contained ≡ c
      → classify_contained x c ≡ some p
      → is_strict x.target_head x.lane_head p ≡ true
      → AllEquivalent x
  unfolding is_strict uncounted
  contained-AllEquivalent present p at h strict = absurd (ground arith)
  contained-AllEquivalent unverifiable p at h strict = absurd (ground arith)
  contained-AllEquivalent absent p at h strict = elim (Bool-cases (x.target_tree == x.lane_tree)) [
    | inl same ↦ absurd (ground (arith, same))
    | inr other ↦
        let is_base : classify_base x x.merge_base ≡ p = ground (arith, other) in
        base-AllEquivalent x.merge_base refl at
          (λ same. ground (arith, other, same, eq_iff x.target_tree x.lane_tree))
          (rw is_base strict)
  ]

  AllEquivalent-is_strict :
      (p : Absorption)
      → AllEquivalent x
      → classify_commits x ≡ some p
      → is_strict x.target_head x.lane_head p ≡ true
  unfolding is_strict classify_commits classify_rows counted
  AllEquivalent-is_strict p e h =
      let merges = (is_merge-All x.commit_rows).1 e.plain in
      let unabsorbed = (is_unabsorbed-All x.cherry_rows marked).1 e.minus in
      let equivalent = is_equivalent-All x.cherry_rows e.minus in
      let other : (x.target_tree == x.lane_tree) ≡ false =
        elim (Bool-cases (x.target_tree == x.lane_tree)) [
          | inl same ↦ absurd (e.other_tree ((eq_iff x.target_tree x.lane_tree).0 same))
          | inr different ↦ different
        ] in
      let full : is_empty x.cherry_rows ≡ false =
        filled x.cherry_rows (ground (arith, e.complete, e.some_commit)) in
      let is_answer : counted x "patch_equivalent" true ≡ p =
        ground (arith, e.outside, other, e.based, merges, unabsorbed, full) in
      rw (← is_answer) (
        ground (
          arith,
          merges,
          unabsorbed,
          equivalent,
          e.complete,
          e.some_commit,
          eq_refl x.target_head,
          eq_refl x.lane_head,
        ))

  -- With lines of `git cherry` that start with a plus or a minus, an answer of the audit passes the strict
  -- test of a stale close exactly if the commit is not in the target, nor is its tree that of the
  -- target, there is a merge base with a commit since it, none of these is a merge, and Git lists a
  -- line for each of them that starts with a minus, and no other line.
  pub is_strict-AllEquivalent :
      (p : Absorption)
      → classify_commits x ≡ some p
      → (is_strict x.target_head x.lane_head p ≡ true) ↔ AllEquivalent x
  unfolding classify_commits
  is_strict-AllEquivalent p h =
      (contained-AllEquivalent x.contained p refl h, λ e. AllEquivalent-is_strict p e h)
