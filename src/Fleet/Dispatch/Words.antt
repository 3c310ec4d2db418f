-- ===== src/Fleet/Dispatch/Words.antt =====
-- `parse_requirements` of fleet_common.py: a text of words with commas between them.
use Prim.Native.Char.{Char, code}
use Prim.Native.String
use opl_flow.Base.{
  String, not, List, [], ◌∷◌, ◌==◌, all, eqb, sorted_set, if◌then◌else◌, ok, raise_if, ◌>>◌,
}
use opl_flow.Base.Results.{Result}
use opl_flow.Base.Text.{strip, is_space}
use opl_flow.Fleet.Common.{FleetError, lease_requirements_invalid}
use opl_flow.Fleet.Lease.Validate.{is_requirement}

abbrev pub cons_first : Char → List String → List String
cons_first c [] = String.◌∷◌ c String.[] ∷ []
cons_first c (s ∷ ss) = String.◌∷◌ c s ∷ ss

-- `value.split(",")`
unfoldable pub split_commas : String → List String
split_commas String.[] = "" ∷ []
split_commas (String.◌∷◌ c s) =
    let rest = split_commas s in if eqb (code c) b',' then "" ∷ rest else cons_first c rest

-- `",".join(words)`
unfoldable pub join_commas : List String → String
join_commas [] = ""
join_commas (s ∷ []) = s
join_commas (s ∷ t ∷ ss) = String.◌++◌ s (String.◌++◌ "," (join_commas (t ∷ ss)))

-- the words that are left when each is stripped
unfoldable pub stripped_words : List String → List String
stripped_words [] = []
stripped_words (s ∷ ss) =
    let rest = stripped_words ss in
    let word = strip is_space s in if word == "" then rest else word ∷ rest

unfoldable pub parse_requirements : String → Result FleetError (List String)
parse_requirements value = do
  let required = sorted_set (stripped_words (split_commas value))
  raise_if (not (all is_requirement required)) lease_requirements_invalid
  ok required
