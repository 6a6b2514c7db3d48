-- ===== src/Commands/Environment.antt =====
-- safety/commands.py and safety/secrets.py: the environment of a command, and the secret values of the
-- environment that the program runs in.
use Prim.Native.String.{compare}
use text.Mathlib.Text.{is_le}
use proofcoder.Base.{
  String, ◌⁀◌, Bool, true, false, ◌&&◌, ◌||◌, not, Option, none, some, List, [], ◌∷◌, if◌then◌else◌,
  ◌==◌, ltb, eqb,
}
use proofcoder.Base.Dict.{Dict, lookup, insert}
use proofcoder.Base.Posix.{is_absolute}
use proofcoder.Base.Text.{mem_text, contains_text, text_length, split_at}

abbrev pub allowed_environment_names : List String
allowed_environment_names =
    "LANG" ∷ "LC_ALL" ∷ "LC_CTYPE" ∷ "PATH" ∷ "PATHEXT" ∷ "SYSTEMROOT" ∷ "TEMP" ∷ "TMP" ∷ "TMPDIR"
    ∷ "WINDIR" ∷ []

abbrev pub sensitive_environment_markers : List String
sensitive_environment_markers = "KEY" ∷ "TOKEN" ∷ "SECRET" ∷ "PASSWORD" ∷ "CREDENTIAL" ∷ []

abbrev pub command_environment_defaults : Dict String
command_environment_defaults =
    ("GIT_PAGER", "cat")
    ∷ ("GIT_TERMINAL_PROMPT", "0")
    ∷ ("NO_COLOR", "1")
    ∷ ("PAGER", "cat")
    ∷ ("PYTHONIOENCODING", "utf-8")
    ∷ ("PYTHONUTF8", "1")
    ∷ ("TERM", "dumb")
    ∷ []

abbrev pub git_environment : Dict String
git_environment =
    ("GIT_ATTR_NOSYSTEM", "1") ∷ ("GIT_CONFIG_NOSYSTEM", "1") ∷ ("GIT_OPTIONAL_LOCKS", "0") ∷ []

-- d.updated_with(entries)
unfoldable pub updated_with : Dict String → Dict String → Dict String
updated_with [] d = d
updated_with ((k, v) ∷ entries) d = updated_with entries (insert k v d)

-- any(needle in text for needle in needles)
unfoldable pub contains_any : List String → String → Bool
contains_any [] text = false
contains_any (needle ∷ needles) text = contains_text needle text || contains_any needles text

unfoldable pub value_or_empty : Option String → String
value_or_empty none = ""
value_or_empty (some value) = value

-- ":".join(entries)
join_entries : List String → String
join_entries [] = ""
join_entries (e ∷ []) = e
join_entries (e ∷ f ∷ es) = e ⁀ (":" ⁀ join_entries (f ∷ es))

-- `upper` is value.upper(), `bare` is value.strip().strip('"'), `path_string` is str(Path(value))
pub record EnvironmentTexts : Type 0 where
  pub upper : String → String
  pub bare : String → String
  pub path_string : String → String

module _ (names : EnvironmentTexts) where
  unfoldable pub is_sensitive_environment_name : String → Bool
  unfolding contains_any
  is_sensitive_environment_name name = contains_any sensitive_environment_markers (names.upper name)

  -- the loop over the names of the source
  unfoldable pub filtered : Dict String → Dict String → Dict String
  filtered [] result = result
  filtered ((name, value) ∷ source) result =
      let upper_name = names.upper name in
      let skipped = filtered source result in
      let taken = filtered source (insert upper_name value result) in
      if not (mem_text upper_name allowed_environment_names)
      then skipped
      else if is_sensitive_environment_name upper_name
      then skipped
      else taken

  unfoldable pub minimal_subprocess_environment : Dict String → Bool → Dict String
  unfolding filtered
  minimal_subprocess_environment source command_defaults =
      if command_defaults
      then updated_with command_environment_defaults (filtered source [])
      else filtered source []

  accepted_entries : List String → List String → List String
  accepted_entries seen [] = []
  accepted_entries seen (raw_entry ∷ raw_entries) =
      let entry = names.bare raw_entry in
      let normalized = names.path_string entry in
      let skipped = accepted_entries seen raw_entries in
      let taken = normalized ∷ accepted_entries (normalized ∷ seen) raw_entries in
      if entry == ""
      then skipped
      else if not (is_absolute entry)
      then skipped
      else if mem_text normalized seen
      then skipped
      else taken

  unfoldable pub absolute_path_entries : String → String
  unfolding accepted_entries join_entries
  absolute_path_entries raw_path = join_entries (accepted_entries [] (split_at 58 raw_path))

  unfoldable pub command_environment : Dict String → Dict String
  unfolding value_or_empty
  command_environment environ =
      let environment = minimal_subprocess_environment environ true in
      updated_with git_environment (
        insert "PATH" (absolute_path_entries (value_or_empty (lookup "PATH" environment)))
          environment)

  -- the longest first, and texts of the same length in order
  insert_value : String → List String → List String
  insert_value value [] = value ∷ []
  insert_value value (v ∷ vs) =
      let behind = v ∷ insert_value value vs in
      if v == value
      then v ∷ vs
      else if ltb (text_length v) (text_length value)
          || (eqb (text_length v) (text_length value) && is_le (compare value v))
      then value ∷ v ∷ vs
      else behind

  unfoldable pub sensitive_environment_values : Dict String → List String
  unfolding insert_value
  sensitive_environment_values [] = []
  sensitive_environment_values ((name, value) ∷ source) =
      let values = sensitive_environment_values source in
      if is_sensitive_environment_name name && not (value == "")
      then insert_value value values
      else values
