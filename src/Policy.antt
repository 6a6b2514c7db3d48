-- ===== src/Policy.antt =====
-- safety/policy.py: a project command policy, parsed from a TOML document. The document is what
-- tomllib gives, as decoded JSON values; its dates and times do not occur in what is accepted.
pub mod Parsed
use proofcoder.Base.{
  ℕ, zero, suc, eqb, String, ◌⁀◌, Bool, true, false, ◌&&◌, ◌||◌, not, Option, none, some, List, [],
  ◌∷◌, ◌++◌, if◌then◌else◌, ◌==◌, ltb, length,
}
use proofcoder.Base.Host.{Texts}
use proofcoder.Base.Int.{ℤ, pos}
use proofcoder.Base.Posix.{parts}
use proofcoder.Base.Result.{Result, ok, err, ◌>>=◌, ◌>>◌, raise_if}
use proofcoder.Base.Text.{text_length, has_prefix, has_char, mem_text}
use proofcoder.Json.{Json, null, bool, int, real, str, arr, obj, Items, nil, cons, Fields, get}
use proofcoder.Paths.Secrets.{suffix, last_part}
use proofcoder.Registry.Schema.{unknown_names, least, field_names}

abbrev pub policy_command_kinds : List String
policy_command_kinds = "build" ∷ "script" ∷ "static_check" ∷ "test" ∷ []

abbrev pub forbidden_executable_suffixes : List String
forbidden_executable_suffixes = ".bat" ∷ ".cmd" ∷ ".ps1" ∷ ".sh" ∷ []

abbrev pub top_level_fields : List String
top_level_fields = "command" ∷ "schema_version" ∷ []

abbrev pub entry_fields : List String
entry_fields = "decision" ∷ "executable" ∷ "kind" ∷ "options" ∷ "subcommands" ∷ []

pub data CommandDecision : Type 0 where
  allow confirm deny : CommandDecision

pub record PolicyEntry : Type 0 where
  pub executable : String
  pub subcommands : List String
  pub options : List String
  pub decision : CommandDecision
  pub kind : String

pub record CommandPolicy : Type 0 where
  pub entries : List PolicyEntry
  pub source : String
  pub digest : String

-- CommandPolicyFileError(code, message), and the TypeError of an unhashable value
pub data PolicyError : Type 0 where
  policy_file_error : String → String → PolicyError
  type_error : PolicyError

abbrev pub invalid : String → PolicyError
invalid message = policy_file_error "POLICY_INVALID" message

unfoldable pub items_length : Items → ℕ
items_length nil = 0
items_length (cons x xs) = suc (items_length xs)

unfoldable pub find_entry : String → List PolicyEntry → Option PolicyEntry
find_entry name [] = none
find_entry name (entry ∷ entries) =
    if entry.executable == name then some entry else find_entry name entries

unfoldable pub entry_for : Texts → String → CommandPolicy → Option PolicyEntry
unfolding find_entry
entry_for texts executable_name policy = find_entry (texts.casefold executable_name) policy.entries

remove_seen : List String → List String → List String
remove_seen seen [] = []
remove_seen seen (token ∷ tokens) =
    let again = remove_seen seen tokens in
    let fresh = token ∷ remove_seen (token ∷ seen) tokens in
    if mem_text token seen then again else fresh

unfoldable pub deduplicate : List String → List String
unfolding remove_seen
deduplicate tokens = remove_seen [] tokens

no_unknown : List String → (String → PolicyError) → Result PolicyError (Unit {0})
no_unknown [] error = ok tt
no_unknown (k ∷ ks) error = err (error (least k ks))

-- `strip` is value.strip()
module _ (texts : Texts) (strip : String → String) where
  is_token : String → Bool
  is_token item =
      not (item == "")
      && (item == strip item && (not (has_char 0 item) && not (ltb 64 (text_length item))))

  collect_tokens : String → Bool → Items → Result PolicyError (List String)
  collect_tokens field option nil = ok []
  collect_tokens field option (cons (str item) items) = do
    raise_if (not (is_token item)) (invalid ("policy " ⁀ (field ⁀ " contains an invalid token")))
    raise_if (option && not (has_prefix "-" item)) (invalid "policy options must start with '-'")
    raise_if (not option && has_prefix "-" item)
        (invalid "policy subcommands must not start with '-'")
    rest ← collect_tokens field option items
    ok (item ∷ rest)
  collect_tokens field option (cons _ items) =
      err (invalid ("policy " ⁀ (field ⁀ " contains an invalid token")))

  -- value.get(field, [])
  unfoldable pub token_list : String → Bool → Option Json → Result PolicyError (List String)
  unfolding collect_tokens is_token
  token_list field option none = ok []
  token_list field option (some (arr items)) = do
    raise_if (ltb 64 (items_length items))
        (invalid ("policy " ⁀ (field ⁀ " declares too many entries")))
    tokens ← collect_tokens field option items
    ok (deduplicate tokens)
  token_list field option (some _) = err (invalid ("policy " ⁀ (field ⁀ " must be a string list")))

  unfoldable pub executable_name : Option Json → Result PolicyError String
  executable_name (some (str value)) = do
    raise_if (value == "" || not (value == strip value))
        (invalid "each policy command executable must be a bare program name")
    raise_if (ltb 64 (text_length value)) (invalid "policy executable name is too long")
    raise_if
        (has_char 47 value || (has_char 92 value || (has_prefix "-" value || has_char 0 value)))
        (invalid "policy executables are bare program names resolved on the sanitized PATH")
    let folded = texts.casefold value
    raise_if (mem_text (suffix (last_part (parts folded))) forbidden_executable_suffixes)
        (invalid "shell, batch, and PowerShell script executables cannot be declared")
    ok folded
  executable_name _ = err (invalid "each policy command executable must be a bare program name")

  -- `value not in {"allow", "confirm"}` hashes the value, which raises TypeError for a list or a table
  unfoldable pub decision_of : Option Json → Result PolicyError CommandDecision
  decision_of (some (str value)) =
      if value == "allow"
      then ok allow
      else if value == "confirm"
      then ok confirm
      else err (invalid "each policy command decision must be 'allow' or 'confirm'")
  decision_of (some (arr items)) = err type_error
  decision_of (some (obj fields)) = err type_error
  decision_of _ = err (invalid "each policy command decision must be 'allow' or 'confirm'")

  unfoldable pub kind_of : Option Json → Result PolicyError String
  kind_of (some (str kind)) =
      if mem_text kind policy_command_kinds
      then ok kind
      else err (
          invalid
            "each policy command kind must be one of ['build', 'script', 'static_check', 'test']")
  kind_of _ = err (
      invalid "each policy command kind must be one of ['build', 'script', 'static_check', 'test']")

  unfoldable pub parse_entry : List String → Json → Result PolicyError PolicyEntry
  unfolding no_unknown
  parse_entry reserved (obj value) = do
    no_unknown (unknown_names entry_fields (field_names value))
        (λ name. invalid ("unknown policy command field: " ⁀ name))
    executable ← executable_name (get "executable" value)
    raise_if (mem_text executable reserved) (
        policy_file_error "POLICY_SHADOWS_BUILTIN"
          ("'" ⁀ (executable ⁀ "' is decided by the built-in policy and cannot be redeclared")))
    decision ← decision_of (get "decision" value)
    kind ← kind_of (get "kind" value)
    subcommands ← token_list "subcommands" false (get "subcommands" value)
    options ← token_list "options" true (get "options" value)
    ok (record {
      executable = executable;
      subcommands = subcommands;
      options = options;
      decision = decision;
      kind = kind;
    })
  parse_entry reserved _ = err (invalid "each [[command]] must be a table")

  parse_entries : List String → List String → Items → Result PolicyError (List PolicyEntry)
  parse_entries reserved seen nil = ok []
  parse_entries reserved seen (cons item items) = do
    entry ← parse_entry reserved item
    raise_if (mem_text entry.executable seen) (
        policy_file_error "POLICY_DUPLICATE_EXECUTABLE"
          ("the command policy declares '" ⁀ (entry.executable ⁀ "' more than once")))
    rest ← parse_entries reserved (entry.executable ∷ seen) items
    ok (entry ∷ rest)

  is_version : Option Json → Bool
  is_version (some (int (pos n))) = eqb n 1
  is_version _ = false

  parse_declared : List String → Option Json → Result PolicyError (List PolicyEntry)
  parse_declared reserved (some (arr (cons item items))) = do
    raise_if (ltb 32 (items_length (cons item items)))
        (invalid "the command policy declares more than 32 commands")
    parse_entries reserved [] (cons item items)
  parse_declared reserved _ =
      err (invalid "the command policy must declare at least one [[command]]")

  unfoldable pub parse_document : List String → Json → Result PolicyError (List PolicyEntry)
  unfolding parse_declared parse_entries is_version no_unknown
  parse_document reserved (obj document) = do
    no_unknown (unknown_names top_level_fields (field_names document))
        (λ name. invalid ("unknown top-level policy field: " ⁀ name))
    raise_if (not (is_version (get "schema_version" document)))
        (invalid "command policy schema_version must be 1")
    parse_declared reserved (get "command" document)
  parse_document reserved _ = err (invalid "the command policy must be a TOML table")
