-- ===== src/Owner/Checkpoint.antt =====
-- `validate_checkpoint` and `_relative` of opl_task_owner.py, on a checkpoint whose JSON fields have
-- the types that it asks for.
use opl_flow.Base.{
  ℕ, String, Bool, false, not, ◌&&◌, ◌||◌, List, [], ◌∷◌, member, texts_eq, sorted_set, is_empty,
  any, ltb, eqb, ok, raise_if, ◌>>=◌, ◌>>◌,
}
use opl_flow.Base.Results.{Result}
use opl_flow.Base.Text.{
  chars, strip, is_space, is_empty_text, is_blank, is_lower, is_upper, is_digit, is_hex_of,
  any_char, all_chars,
}
use opl_flow.Base.Paths.{path_parts, starts_with_slash}
use opl_flow.Owner.Data.{
  OwnerError, path_not_relative, checkpoint_content, recovery_entry, Recovery, Checkpoint,
}

-- the checkpoint as the caller gives it
pub record CheckpointInput : Type 0 where
  pub write_set : List String
  pub remaining : List String
  pub next_action : String
  pub git_recovery : List Recovery

-- `_relative`. `PurePosixPath.parts` leaves out empty parts and `.`, so that `..` is what is left
-- of its test.
unfoldable pub relative : String → Result OwnerError String
relative value = do
  let text = strip is_space value
  raise_if
      (is_empty_text text
        || starts_with_slash text
        || any_char (λ n. eqb n 92) text
        || member ".." (path_parts text))
      path_not_relative
  ok text

unfoldable pub relatives : List String → Result OwnerError (List String)
relatives [] = ok []
relatives (x ∷ xs) = do path ← relative x; rest ← relatives xs; ok (path ∷ rest)

-- `[A-Za-z0-9_.-]`
abbrev is_repository_char : ℕ → Bool
is_repository_char n =
    is_lower n || is_upper n || is_digit n || eqb n b'_' || eqb n b'.' || eqb n b'-'

abbrev is_two_names : List String → Bool
is_two_names (owner ∷ name ∷ []) =
    not (is_empty_text owner)
    && not (is_empty_text name)
    && all_chars is_repository_char owner
    && all_chars is_repository_char name
is_two_names _ = false

-- `REPOSITORY.fullmatch`: two names around one slash
unfoldable pub is_repository : String → Bool
is_repository s = is_two_names (path_parts s)

unfoldable pub recovery_entries : List Recovery → List String → Result OwnerError (List Recovery)
recovery_entries [] seen = ok []
recovery_entries (e ∷ es) seen = do
  let ref = strip is_space e.ref
  raise_if
      (not (is_repository e.repository)
        || member e.repository seen
        || is_empty_text ref
        || ltb 200 (chars ref)
        || not (is_hex_of 40 e.commit)
        || not (is_hex_of 40 e.tree))
      recovery_entry
  rest ← recovery_entries es (e.repository ∷ seen)
  ok (record e { ref = ref } ∷ rest)

abbrev strip_all : List String → List String
strip_all [] = []
strip_all (x ∷ xs) = strip is_space x ∷ strip_all xs

unfoldable pub validate_checkpoint : CheckpointInput → String → Result OwnerError Checkpoint
validate_checkpoint c now = do
  raise_if
      (is_empty c.write_set
        || not (texts_eq c.write_set (sorted_set c.write_set))
        || any is_blank c.remaining
        || is_blank c.next_action)
      checkpoint_content
  write_set ← relatives c.write_set
  recovery ← recovery_entries c.git_recovery []
  ok (record {
    recorded_at = now;
    write_set = write_set;
    remaining = strip_all c.remaining;
    next_action = strip is_space c.next_action;
    git_recovery = recovery;
  })
