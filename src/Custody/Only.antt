-- ===== src/Custody/Only.antt =====
-- The one receipt of a worktree that a close of a superseded or stale receipt looks for.
use opl_flow.Base.{
  ◌≢◌, ◌⊎◌, String, ◌≡◌, inl, inr, ◌==◌, List, [], ◌∷◌, All, arith, eq_iff, ok, Bool-cases,
}
use opl_flow.Custody.Data.{Entry, is_active_entry}
use opl_flow.Custody.Superseded.{entries_at, unique_active}

-- The receipt is the only one of the worktree in the list.
abbrev pub IsOnly : String → Entry → List Entry → Type 0
IsOnly lane e [] = ⊥
IsOnly lane e (x ∷ xs) =
    ((x ≡ e) × (e.worktree ≡ lane) × All (λ y. y.worktree ≢ lane) xs)
    ⊎ ((x.worktree ≢ lane) × IsOnly lane e xs)

entries_at-All :
    (lane : String) (es : List Entry) → entries_at lane es ≡ [] → All (λ y. y.worktree ≢ lane) es
unfolding entries_at
entries_at-All lane [] h = tt
entries_at-All lane (x ∷ xs) h = elim (Bool-cases (x.worktree == lane)) [
  | inl same ↦ absurd (ground (arith, same))
  | inr other ↦ (
    (λ same. ground (arith, other, same, eq_iff x.worktree lane)),
    entries_at-All lane xs (ground (arith, other)),
  )
]

pub entries_at-IsOnly :
    (lane : String) (e : Entry) (es : List Entry) → entries_at lane es ≡ e ∷ [] → IsOnly lane e es
unfolding entries_at
entries_at-IsOnly lane e [] h = cc
entries_at-IsOnly lane e (x ∷ xs) h = elim (Bool-cases (x.worktree == lane)) [
  | inl same ↦
      let is_that : x ≡ e = ground (arith, same) in
      inl (
        is_that,
        rw (← is_that) ((eq_iff x.worktree lane).0 same),
        entries_at-All lane xs (ground (arith, same)),
      )
  | inr other ↦ inr (
    (λ same. ground (arith, other, same, eq_iff x.worktree lane)),
    entries_at-IsOnly lane e xs (ground (arith, other)),
  )
]

pub unique_active-entry :
    (es : List Entry) (e : Entry) → unique_active es ≡ ok e → (es ≡ e ∷ []) × (e.status ≡ "ACTIVE")
unfolding unique_active is_active_entry
unique_active-entry [] e h = absurd (ground arith)
unique_active-entry (x ∷ []) e h = elim (Bool-cases (is_active_entry x)) [
  | inl active ↦ (ground (arith, active), ground (arith, active, eq_iff x.status "ACTIVE"))
  | inr other ↦ absurd (ground (arith, other))
]
unique_active-entry (x ∷ y ∷ es) e h = absurd (ground arith)
