-- ===== src/Commands/Python.antt =====
-- safety/commands.py: the Python tools: pytest, unittest, compileall, ruff and python itself.
use proofcoder.Base.{
  String, ◌⁀◌, Bool, true, false, ◌&&◌, ◌||◌, not, Option, none, some, List, [], ◌∷◌, if◌then◌else◌,
  ◌==◌,
}
use proofcoder.Base.Host.{Texts, Files, FilePath}
use proofcoder.Base.Posix.{join_parts}
use proofcoder.Base.Result.{Result, ok, err, ◌>>=◌, ◌>>◌, raise_if}
use proofcoder.Base.Text.{mem_text, has_prefix, has_suffix, partition_at}
use proofcoder.Paths.{PathError, resolve_workspace_argument_path}
use proofcoder.Commands.Argv.{CommandError, path_error, blocked, invalid, not_found}
use proofcoder.Commands.Options.{
  option_name, OptionTable, looks_path_like, check_path, validate_path_options,
}
use proofcoder.Commands.Tables.{
  python_modules, pytest_path_options, pytest_value_options, ruff_path_options, ruff_value_options,
  ruff_blocked_options,
}

abbrev pub pytest_table : OptionTable
pytest_table = record {
  path_options = pytest_path_options;
  value_options = pytest_value_options;
  reject_workspace_root_options = "--basetemp" ∷ [];
  has_handler = true;
}

abbrev pub unittest_table : OptionTable
unittest_table = record {
  path_options = "--start-directory" ∷ "--top-level-directory" ∷ "-s" ∷ "-t" ∷ [];
  value_options = "--pattern" ∷ "-k" ∷ "-p" ∷ [];
  reject_workspace_root_options = [];
  has_handler = false;
}

abbrev pub compileall_table : OptionTable
compileall_table = record {
  path_options = "-d" ∷ "-e" ∷ "-i" ∷ "-p" ∷ "-s" ∷ [];
  value_options = "--invalidation-mode" ∷ "-j" ∷ "-o" ∷ "-x" ∷ [];
  reject_workspace_root_options = [];
  has_handler = false;
}

abbrev pub ruff_table : OptionTable
ruff_table = record {
  path_options = ruff_path_options;
  value_options = ruff_value_options;
  reject_workspace_root_options = [];
  has_handler = false;
}

-- any(option_name(argument) in blocked options)
abbrev pub has_blocked_option : List String → Bool
has_blocked_option [] = false
has_blocked_option (argument ∷ arguments) =
    mem_text (option_name argument) ruff_blocked_options || has_blocked_option arguments

unfoldable pub no_handler : String → String → Result CommandError (Unit {0})
no_handler option value = ok tt

-- what a command runs: its kind, and its arguments as they are executed and as they are shown
pub record Validated : Type 0 where
  pub kind : String
  pub execution_tail : List String
  pub display_tail : List String

-- an error of a path that is not translated
abbrev pub raise_path {ℓ} : {A : Type ℓ} → Result PathError A → Result CommandError A
raise_path (ok a) = ok a
raise_path (err e) = err (path_error e)

-- str(path)
abbrev pub path_text : FilePath → String
path_text [] = "/"
path_text (c ∷ cs) = "/" ⁀ join_parts (c ∷ cs)

module _ (texts : Texts) (files : Files) (workspace cwd : FilePath) where
  unfoldable pub report : String → Option String → Result CommandError (Unit {0})
  report report_type none = ok tt
  report report_type (some destination) =
      if mem_text report_type ("html" ∷ "json" ∷ "lcov" ∷ "xml" ∷ [])
      then check_path texts files workspace cwd destination "--cov-report"
      else ok tt

  unfoldable pub validate_pytest_special_option : String → String → Result CommandError (Unit {0})
  unfolding report
  validate_pytest_special_option option value =
      if option == "--cov-report"
      then report (partition_at 58 value).0 (partition_at 58 value).1
      else if option == "--cov" && looks_path_like texts value
      then check_path texts files workspace cwd value option
      else ok tt

  unfoldable pub validate_pytest : List String → Result CommandError (Unit {0})
  validate_pytest arguments =
      validate_path_options texts files workspace cwd pytest_table validate_pytest_special_option
        arguments

  unfoldable pub validate_unittest : List String → Result CommandError (Unit {0})
  unfolding no_handler
  validate_unittest arguments =
      validate_path_options texts files workspace cwd unittest_table no_handler arguments

  unfoldable pub validate_compileall : List String → Result CommandError (Unit {0})
  unfolding no_handler
  validate_compileall arguments =
      validate_path_options texts files workspace cwd compileall_table no_handler arguments

  unfoldable pub validate_ruff : List String → Result CommandError String
  unfolding no_handler
  validate_ruff [] = err (blocked "ruff requires check or format --check")
  validate_ruff (first ∷ arguments) = do
    let subcommand = texts.casefold first
    raise_if (not (mem_text subcommand ("check" ∷ "format" ∷ [])))
        (blocked "ruff subcommand is not allowed")
    raise_if (has_blocked_option arguments) (blocked "ruff mutation flags are blocked")
    raise_if (subcommand == "format" && not (mem_text "--check" arguments))
        (blocked "ruff format is allowed only with --check")
    validate_path_options texts files workspace cwd ruff_table no_handler arguments
    ok "static_check"

  -- what `python -m module` is checked by, and its kind
  unfoldable pub module_kind : String → List String → Result CommandError String
  module_kind name remaining =
      if name == "pytest"
      then validate_pytest remaining >> ok "test"
      else if name == "unittest"
      then validate_unittest remaining >> ok "test"
      else if name == "compileall"
      then validate_compileall remaining >> ok "build"
      else validate_ruff remaining

  unfoldable pub python_module : List String → Result CommandError Validated
  python_module [] = err (invalid "python -m requires a module name")
  python_module (requested ∷ remaining) = do
    let name = texts.casefold requested
    raise_if (not (mem_text name python_modules))
        (blocked "Python module is not in the command allowlist")
    kind ← module_kind name remaining
    ok (record {
      kind = kind;
      execution_tail = "-m" ∷ name ∷ remaining;
      display_tail = "-m" ∷ name ∷ remaining;
    })

  unfoldable pub python_script : String → List String → Result CommandError Validated
  python_script requested arguments = do
    raise_if (has_prefix "-" requested || not (has_suffix ".py" (texts.casefold requested)))
        (blocked "Python must run an allowed module or a workspace .py script")
    (script, relative_script) ←
        raise_path (resolve_workspace_argument_path texts files workspace cwd requested)
    raise_if (not (files.exists script)) (not_found "workspace Python script does not exist")
    raise_if (not (files.is_file script)) (blocked "workspace Python script is not a file")
    ok (record {
      kind = "script";
      execution_tail = path_text script ∷ arguments;
      display_tail = relative_script ∷ arguments;
    })

  unfoldable pub validate_python : List String → Result CommandError Validated
  unfolding module_kind python_module python_script
  validate_python [] = err (blocked "Python must run an allowed module or a workspace .py script")
  validate_python (first ∷ arguments) = do
    raise_if (first == "-" || first == "-c")
        (blocked "Python inline code and stdin execution are blocked")
    if first == "-m" then python_module arguments else python_script first arguments
