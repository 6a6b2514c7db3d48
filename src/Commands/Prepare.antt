-- ===== src/Commands/Prepare.antt =====
-- safety/commands.py: prepare_command, which validates, classifies and resolves one command.
use proofcoder.Base.{
  ℕ, String, Bool, false, ◌||◌, Option, none, some, List, [], ◌∷◌, if◌then◌else◌, ◌==◌, ltb,
}
use proofcoder.Base.Dict.{Dict}
use proofcoder.Base.Host.{Texts, Files, FilePath}
use proofcoder.Base.Int.{pos}
use proofcoder.Base.Result.{Result, ok, err, ◌>>=◌, ◌>>◌, raise_if, or_raise}
use proofcoder.Base.Text.{has_char}
use proofcoder.Json.{Json, int, str, Fields, get}
use proofcoder.Paths.{os_error, directory, resolve_workspace_path}
use proofcoder.Policy.{CommandDecision, allow, confirm, deny, PolicyEntry, CommandPolicy, entry_for}
use proofcoder.Commands.Argv.{CommandError, path_error, blocked, invalid, validated_argv}
use proofcoder.Commands.Declared.{validate_policy_entry}
use proofcoder.Commands.Environment.{
  EnvironmentTexts, command_environment, contains_any, sensitive_environment_values,
}
use proofcoder.Commands.Executable.{Machine, resolve_executable}
use proofcoder.Commands.Git.{validate_git}
use proofcoder.Commands.Gxx.{validate_gxx}
use proofcoder.Commands.Python.{
  Validated, raise_path, validate_python, validate_pytest, validate_ruff,
}

pub record PreparedCommand : Type 0 where
  pub execution_argv : List String
  pub display_argv : List String
  pub cwd : FilePath
  pub relative_cwd : String
  pub timeout_seconds : ℕ
  pub command_kind : String
  pub environment : Dict String
  pub sensitive_values : List String
  pub decision : CommandDecision
  pub decision_source : String

-- What a command is found to be: the checked arguments, the decision, and where it is from.
pub record Classified : Type 0 where
  pub validated : Validated
  pub decided : CommandDecision
  pub decided_by : String

-- a command of the built-in policy whose arguments run as they are given
abbrev pub builtin : String → CommandDecision → List String → Classified
builtin kind decision tail = record {
  validated = record { kind = kind; execution_tail = tail; display_tail = tail };
  decided = decision;
  decided_by = "builtin";
}

unfoldable pub git_kind : CommandDecision → String
git_kind allow = "git_read"
git_kind confirm = "git_write"
git_kind deny = "git_write"

unfoldable pub cwd_argument : Option Json → Result CommandError String
cwd_argument none = ok "."
cwd_argument (some (str value)) = do
  raise_if (value == "" || has_char 0 value) (invalid "cwd must be a non-empty string")
  ok value
cwd_argument (some _) = err (invalid "cwd must be a non-empty string")

unfoldable pub timeout_argument : Option Json → Result CommandError ℕ
timeout_argument none = ok 60
timeout_argument (some (int (pos n))) = do
  raise_if (ltb n 1 || ltb 300 n) (invalid "timeout_seconds must be an integer from 1 through 300")
  ok n
timeout_argument (some _) = err (invalid "timeout_seconds must be an integer from 1 through 300")

-- any(secret in item for secret in secrets for item in argv)
unfoldable pub contains_secret : List String → List String → Bool
unfolding contains_any
contains_secret secrets [] = false
contains_secret secrets (item ∷ argv) = contains_any secrets item || contains_secret secrets argv

unfoldable pub entry_of : Texts → Option CommandPolicy → String → Option PolicyEntry
entry_of texts none name = none
entry_of texts (some policy) name = entry_for texts name policy

module _ (texts : Texts) (files : Files) (workspace cwd : FilePath) where
  unfoldable pub classify_declared :
      Option PolicyEntry → List String → Result CommandError Classified
  classify_declared none tail = err (blocked "executable is not in the command allowlist")
  classify_declared (some entry) tail = do
    validate_policy_entry texts files workspace cwd entry tail
    ok (record {
      validated = record { kind = entry.kind; execution_tail = tail; display_tail = tail };
      decided = entry.decision;
      decided_by = "policy";
    })

  -- the check of the arguments, by the name of the program
  unfoldable pub classify :
      String → Option PolicyEntry → List String → Result CommandError Classified
  unfolding git_kind classify_declared
  classify name entry tail =
      if name == "python"
      then validate_python texts files workspace cwd tail
        >>= (λ v. ok (record { validated = v; decided = allow; decided_by = "builtin" }))
      else if name == "pytest"
      then validate_pytest texts files workspace cwd tail >> ok (builtin "test" allow tail)
      else if name == "ruff"
      then validate_ruff texts files workspace cwd tail >>= (λ kind. ok (builtin kind allow tail))
      else if name == "git"
      then validate_git texts files workspace cwd tail
        >>= (λ decision. ok (builtin (git_kind decision) decision tail))
      else if name == "g++"
      then validate_gxx texts files workspace cwd tail
        >>= (λ v. ok (record { validated = v; decided = allow; decided_by = "builtin" }))
      else classify_declared entry tail

abbrev pub head_or_empty : List String → String
head_or_empty [] = ""
head_or_empty (x ∷ xs) = x

abbrev pub tail_or_empty : List String → List String
tail_or_empty [] = []
tail_or_empty (x ∷ xs) = xs

module _ (texts : Texts) (files : Files) (names : EnvironmentTexts) (machine : Machine) where
  unfoldable pub prepare_command :
      FilePath → Fields → Dict String → Option CommandPolicy → Result CommandError PreparedCommand
  unfolding cwd_argument timeout_argument entry_of
  prepare_command workspace arguments environ policy = do
    root ← or_raise (files.resolve_strict workspace) (path_error os_error)
    argv ← validated_argv (get "argv" arguments)
    cwd_value ← cwd_argument (get "cwd" arguments)
    timeout_value ← timeout_argument (get "timeout_seconds" arguments)
    (cwd, relative_cwd) ← raise_path (resolve_workspace_path texts files root cwd_value directory)
    let secrets = sensitive_environment_values names environ
    raise_if (contains_secret secrets argv)
        (blocked "argv contains a known sensitive environment value")
    let environment = command_environment names environ
    (executable, canonical_name) ←
        resolve_executable texts files machine root (head_or_empty argv) environment policy
    classified ←
        classify texts files root cwd canonical_name (entry_of texts policy canonical_name)
          (tail_or_empty argv)
    ok (record {
      execution_argv = executable ∷ classified.validated.execution_tail;
      display_argv = canonical_name ∷ classified.validated.display_tail;
      cwd = cwd;
      relative_cwd = relative_cwd;
      timeout_seconds = timeout_value;
      command_kind = classified.validated.kind;
      environment = environment;
      sensitive_values = secrets;
      decision = classified.decided;
      decision_source = classified.decided_by;
    })
