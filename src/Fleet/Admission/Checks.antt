-- ===== src/Fleet/Admission/Checks.antt =====
-- The list of failures that a gate of fleet_runner.py collects before it raises.
use opl_flow.Base.{
  String, Bool, true, false, ◌≡◌, List, [], ◌∷◌, member, arith, is_empty, if◌then◌else◌,
}

-- a test with the word that is recorded when it is true
abbrev pub Check : Type 0
Check = Bool × String

-- `if test: failures.append(word)`, one after the other
unfoldable pub failing : List Check → List String
failing [] = []
failing ((fails, word) ∷ cs) = let rest = failing cs in if fails then word ∷ rest else rest

unfoldable pub first_of_each : List String → List String → List String
first_of_each seen [] = []
first_of_each seen (x ∷ xs) =
    if member x seen then first_of_each seen xs else x ∷ first_of_each (x ∷ seen) xs

-- `dict.fromkeys(failures)`
unfoldable pub distinct_words : List String → List String
distinct_words xs = first_of_each [] xs

abbrev pub NoneFail : List Check → Type 0
NoneFail [] = Unit
NoneFail ((fails, word) ∷ cs) = (fails ≡ false) × NoneFail cs

pub failing-NoneFail : (cs : List Check) → is_empty (failing cs) ≡ true → NoneFail cs
unfolding failing
failing-NoneFail [] h = tt
failing-NoneFail ((fails, word) ∷ cs) h = (ground arith, failing-NoneFail cs (ground arith))
