-- ===== src/Tests/Commands.antt =====
-- Commands that run in the workspace /w, which holds a.py, main.cpp and nothing else.
use proofcoder.Base.{
  arith, subst, ℕ, String, ◌≡◌, ◌≢◌, refl, Bool, true, false, ◌&&◌, ◌||◌, not, Option, none, some,
  List, [], ◌∷◌, All, ◌==◌,
}
use proofcoder.Base.Dict.{Dict, keys, lookup, insert}
use proofcoder.Base.Host.{Files, FilePath}
use proofcoder.Base.Posix.{parts, is_absolute, join_parts}
use proofcoder.Base.Result.{Result, ok, err}
use proofcoder.Base.Text.{
  text_length, has_prefix, has_char, has_suffix, contains_text, mem_text, to_slashes, split_at,
  partition_at, before_colons, tail_text, remove_suffix,
}
use proofcoder.Json.{str, arr, nil, cons, Fields, end, field, get}
use proofcoder.Paths.{
  resolve_workspace_path, resolve_workspace_argument_path, is_absolute_or_drive_qualified,
  is_internal_runtime_path, is_within, relative_to, joined,
}
use proofcoder.Paths.Secrets.{is_sensitive_filename, is_sensitive_path, suffix, last_part}
use proofcoder.Paths.Contained.{ResolvesDots}
use proofcoder.Policy.{CommandPolicy, allow, confirm, deny, entry_for, items_length}
use proofcoder.Commands.Argv.{CommandError, validated_argv}
use proofcoder.Commands.Clean.{IsAllowedName, fixed_environment, command_environment-IsAllowedName}
use proofcoder.Commands.Compiled.{IsCompilation, validate_gxx-IsCompilation}
use proofcoder.Commands.Declared.{validate_policy_entry}
use proofcoder.Commands.Environment.{
  EnvironmentTexts, updated_with, contains_any, value_or_empty, is_sensitive_environment_name,
  minimal_subprocess_environment, absolute_path_entries, command_environment,
  sensitive_environment_values,
}
use proofcoder.Commands.Executable.{Machine, resolve_gxx_executable, resolve_executable}
use proofcoder.Commands.Git.{git_decision, changes_scope, validate_git}
use proofcoder.Commands.Tables.{git_blocked_options}
use proofcoder.Commands.Gxx.{
  gxx_argument, item_at, set_item, validate_gxx_source, validate_gxx_output, validate_gxx,
}
use proofcoder.Commands.Operands.{
  IsWorkspacePath, validate_git-IsWorkspacePath, IsDeclaredUse, validate_policy_entry-IsDeclaredUse,
}
use proofcoder.Commands.Options.{
  option_name, looks_path_like, same_path, argument_of, validate_path_value, check_path,
  validate_path_options,
}
use proofcoder.Commands.Prepare.{PreparedCommand, contains_secret, classify, prepare_command}
use proofcoder.Commands.Python.{
  validate_pytest_special_option, validate_pytest, validate_unittest, validate_compileall,
  validate_ruff, validate_python,
}
use proofcoder.Commands.Undenied.{prepare_command-parse_document}
use proofcoder.Tests.Paths.{texts, w, without, without_keeps}
use proofcoder.Tests.Policy.{bare, document, make_entry, parsed}

abbrev is_path : FilePath → String → Bool
is_path path name = join_parts path == name

abbrev files : Files
files = record {
  resolve = λ p. some (without [] p);
  resolve_strict = λ p. some (without [] p);
  exists = λ p. is_path p "w" || (is_path p "w/a.py" || is_path p "w/main.cpp");
  is_dir = λ p. is_path p "w";
  is_file = λ p. is_path p "w/a.py" || is_path p "w/main.cpp";
  lexists = λ p. is_path p "w" || (is_path p "w/a.py" || is_path p "w/main.cpp");
}

commands-ResolvesDots : ResolvesDots files
unfolding mem_text
commands-ResolvesDots p q e =
    let same : without [] p ≡ q = ground arith in
    subst (λ r. mem_text ".." r ≡ false) same (without_keeps [] p refl)

abbrev names : EnvironmentTexts
names = record { upper = λ s. s; bare = λ s. s; path_string = λ s. s }

abbrev machine : Machine
machine = record {
  python_executable = "/usr/bin/python3";
  which = λ requested path. some ("/usr/bin/make");
  current = [];
  normalized = λ p. p;
  first_two = λ p. some "EL";
  is_python_name = λ name. name == "python";
}

abbrev environ : Dict String
environ = ("PATH", "/usr/bin") ∷ ("API_KEY", "hunter") ∷ ("HOME", "/root") ∷ []

abbrev policy : CommandPolicy
policy = record { entries = make_entry ∷ []; source = "proofcoder.toml"; digest = "d" }

abbrev make_arguments : Fields
make_arguments =
    field "argv"
      (arr (cons (str "make") (cons (str "all") (cons (str "-j") (cons (str "./a.py") nil))))) end

-- The line opens what the checks compute with.
prepared : Result CommandError PreparedCommand
unfolding prepare_command classify contains_secret validated_argv items_length text_length
    has_prefix has_char has_suffix contains_text mem_text to_slashes split_at partition_at
    before_colons tail_text remove_suffix parts is_absolute join_parts get resolve_workspace_path
    resolve_workspace_argument_path is_absolute_or_drive_qualified is_internal_runtime_path
    is_within relative_to joined is_sensitive_filename is_sensitive_path suffix last_part entry_for
    updated_with contains_any value_or_empty is_sensitive_environment_name
    minimal_subprocess_environment absolute_path_entries command_environment
    sensitive_environment_values resolve_gxx_executable resolve_executable git_decision validate_git
    validate_policy_entry gxx_argument item_at set_item validate_gxx_source validate_gxx_output
    validate_gxx looks_path_like same_path argument_of validate_path_value check_path
    validate_path_options validate_pytest_special_option validate_pytest validate_unittest
    validate_compileall validate_ruff validate_python lookup insert
prepared = prepare_command texts files names machine w make_arguments environ (some policy)

source_of : Result CommandError PreparedCommand → Option (String × ℕ)
source_of (ok p) = some (p.decision_source, p.timeout_seconds)
source_of (err e) = none

prepared_make : source_of prepared ≡ some ("policy", 60)
unfolding prepared source_of
prepared_make = refl

abbrev make_command : PreparedCommand
make_command = record {
  execution_argv = "/usr/bin/make" ∷ "all" ∷ "-j" ∷ "./a.py" ∷ [];
  display_argv = "make" ∷ "all" ∷ "-j" ∷ "./a.py" ∷ [];
  cwd = w;
  relative_cwd = ".";
  timeout_seconds = 60;
  command_kind = "build";
  environment = command_environment names environ;
  sensitive_values = "hunter" ∷ [];
  decision = confirm;
  decision_source = "policy";
}

prepare_command-parse_document_example : make_command.decision ≢ deny
unfolding prepared parsed
prepare_command-parse_document_example =
    prepare_command-parse_document texts files names machine bare ("git" ∷ []) document w
      make_arguments environ policy {p = make_command} refl refl

command_environment-IsAllowedName_example :
    All (IsAllowedName names) (keys (command_environment names environ))
    × All (λ (k, v). lookup k (command_environment names environ) ≡ some v) fixed_environment
command_environment-IsAllowedName_example = command_environment-IsAllowedName names environ

-- git diff -- a.py
validate_git-IsWorkspacePath_example :
    (changes_scope "a.py" ≡ false)
    × (mem_text (option_name "a.py") git_blocked_options ≡ false)
    × ((mem_text "--" ("--" ∷ []) || (not (has_prefix "-" "a.py") && looks_path_like texts "a.py"))
          ≡ true
        → IsWorkspacePath texts files w w "a.py")
unfolding prepared
validate_git-IsWorkspacePath_example =
    validate_git-IsWorkspacePath texts files w w commands-ResolvesDots "diff" "a.py" ("--" ∷ []) []
      {decision = allow} refl refl

-- make all -j ./a.py
validate_policy_entry-IsDeclaredUse_example :
    IsDeclaredUse texts files w w make_entry ("all" ∷ "-j" ∷ "./a.py" ∷ [])
unfolding prepared
validate_policy_entry-IsDeclaredUse_example =
    validate_policy_entry-IsDeclaredUse texts files w w commands-ResolvesDots make_entry
      ("all" ∷ "-j" ∷ "./a.py" ∷ []) refl

abbrev compiling : List String
compiling = "-std=c++17" ∷ "main.cpp" ∷ "-o" ∷ "main" ∷ []

validate_gxx-IsCompilation_example : IsCompilation texts files w w compiling (record {
  kind = "build";
  execution_tail = "-std=c++17" ∷ "/w/main.cpp" ∷ "-o" ∷ "/w/main" ∷ [];
  display_tail = "-std=c++17" ∷ "main.cpp" ∷ "-o" ∷ "main" ∷ [];
})
unfolding prepared
validate_gxx-IsCompilation_example =
    validate_gxx-IsCompilation texts files w w commands-ResolvesDots compiling refl
