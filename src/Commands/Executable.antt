-- ===== src/Commands/Executable.antt =====
-- safety/commands.py: which program a command runs.
use proofcoder.Base.{
  String, ◌⁀◌, Bool, false, ◌&&◌, ◌||◌, not, Option, none, some, is_some, List, if◌then◌else◌, ◌==◌,
}
use proofcoder.Base.Dict.{Dict, lookup}
use proofcoder.Base.Host.{Texts, Files, FilePath}
use proofcoder.Base.Posix.{parts, is_absolute}
use proofcoder.Base.Result.{Result, ok, err, ◌>>=◌, ◌>>◌, raise_if, or_raise}
use proofcoder.Base.Text.{mem_text, has_char, to_slashes, remove_suffix}
use proofcoder.Paths.{os_error, relative_to, joined, file, resolve_workspace_path}
use proofcoder.Paths.Secrets.{suffix, last_part}
use proofcoder.Commands.Argv.{CommandError, path_error, blocked, not_found}
use proofcoder.Commands.Environment.{value_or_empty}
use proofcoder.Commands.Python.{raise_path, path_text}
use proofcoder.Commands.Tables.{
  blocked_executables, known_executables, gxx_executable_names, python_aliases,
}
use proofcoder.Policy.{CommandPolicy, forbidden_executable_suffixes, entry_for}

-- What the program asks of the machine it runs on.
pub record Machine : Type 0 where
  -- sys.executable
  pub python_executable : String
  -- shutil.which(requested, path=path)
  pub which : String → String → Option String
  -- the working directory of the program
  pub current : FilePath
  -- Path(os.path.abspath(path)) of an absolute path
  pub normalized : FilePath → FilePath
  -- the first two bytes of a file, none where it cannot be read
  pub first_two : FilePath → Option String
  -- _PYTHON_NAME.fullmatch(name) is not None
  pub is_python_name : String → Bool

-- suffix.casefold() of the name of a path
unfoldable pub name_suffix : Texts → List String → String
name_suffix texts path = texts.casefold (suffix (last_part path))

module _ (texts : Texts) (files : Files) (machine : Machine) (workspace : FilePath) where
  unfoldable pub is_within_workspace : FilePath → Bool
  is_within_workspace candidate = is_some (relative_to workspace candidate)

  -- shutil.which(requested, path=safe_path) if safe_path else None
  unfoldable pub which_executable : String → Dict String → Option String
  which_executable requested environment =
      let safe_path = value_or_empty (lookup "PATH" environment) in
      if safe_path == "" then none else machine.which requested safe_path

  unfoldable pub has_gxx_name : FilePath → Bool
  has_gxx_name candidate =
      mem_text (texts.casefold (last_part candidate)) gxx_executable_names
      && not (mem_text (name_suffix texts candidate) forbidden_executable_suffixes)

  unfoldable pub resolve_gxx_executable : String → Dict String → Result CommandError String
  unfolding which_executable is_within_workspace has_gxx_name name_suffix value_or_empty
  resolve_gxx_executable requested environment = do
    found ←
        or_raise (which_executable requested environment)
          (not_found "allowed executable 'g++' was not found on the sanitized PATH")
    raise_if (not (is_absolute found))
        (not_found "allowed compiler did not resolve to an absolute PATH entry")
    let candidate = parts found
    raise_if (not (has_gxx_name candidate))
        (blocked "compiler shell and batch wrappers are blocked")
    resolved ←
        or_raise (files.resolve_strict candidate)
          (not_found "allowed compiler could not be resolved from the sanitized PATH")
    raise_if
        (is_within_workspace (machine.normalized candidate)
          || (is_within_workspace resolved || not (files.is_file resolved)))
        (blocked "compiler must be a regular executable installed outside the workspace")
    raise_if (mem_text (name_suffix texts resolved) forbidden_executable_suffixes)
        (blocked "compiler shell and batch wrappers are blocked")
    start ←
        or_raise (machine.first_two resolved)
          (not_found "allowed compiler could not be inspected before execution")
    raise_if (start == "#!") (blocked "compiler script wrappers are blocked")
    ok (path_text resolved)

  unfoldable pub is_declared : Option CommandPolicy → String → Bool
  is_declared none name = false
  is_declared (some policy) name = is_some (entry_for texts name policy)

  unfoldable pub is_explicit : String → Bool
  is_explicit requested =
      has_char 47 requested || (has_char 92 requested || texts.has_drive requested)

  -- the resolved path of a program that is named by its path
  unfoldable pub explicit_path : String → Result CommandError (Option FilePath)
  explicit_path requested = do
    raise_if
        (mem_text (texts.casefold (last_part (parts (to_slashes requested)))) gxx_executable_names)
        (blocked "explicit compiler paths are blocked; use g++ from the sanitized PATH")
    (resolved, relative) ← raise_path (resolve_workspace_path texts files workspace requested file)
    ok (some resolved)

  -- the name that the program is judged by
  unfoldable pub judged_name : String → Option FilePath → String
  judged_name requested none = texts.casefold requested
  judged_name requested (some resolved) = texts.casefold (last_part resolved)

  -- the path of an allowed program
  unfoldable pub allowed_path :
      String → Option FilePath → String → Dict String → Result CommandError String
  allowed_path requested (some resolved) name environment = ok (path_text resolved)
  allowed_path requested none name environment = do
    found ←
        or_raise (which_executable requested environment)
          (not_found ("allowed executable '" ⁀ (name ⁀ "' was not found on the sanitized PATH")))
    resolved ← or_raise (files.resolve (joined machine.current found)) (path_error os_error)
    ok (path_text resolved)

  unfoldable pub named_executable :
      String
      → Option FilePath
      → String
      → Dict String
      → Option CommandPolicy
      → Result CommandError (String × String)
  named_executable requested resolved executable_name environment policy =
      let name_without_exe = remove_suffix ".exe" executable_name in
      if machine.is_python_name executable_name || mem_text executable_name python_aliases
      then ok (machine.python_executable, "python")
      else if mem_text name_without_exe blocked_executables
      then err (blocked "executable category is blocked by policy")
      else if mem_text executable_name gxx_executable_names
      then resolve_gxx_executable requested environment >>= (λ path. ok (path, "g++"))
      else if not (mem_text name_without_exe known_executables)
          && not (is_declared policy name_without_exe)
      then err (blocked "executable is not in the command allowlist")
      else allowed_path requested resolved name_without_exe environment
        >>= (λ path. ok (path, name_without_exe))

  unfoldable pub resolve_executable :
      String → Dict String → Option CommandPolicy → Result CommandError (String × String)
  unfolding explicit_path is_explicit judged_name named_executable name_suffix is_declared
      allowed_path which_executable value_or_empty
  resolve_executable requested environment policy = do
    raise_if
        (mem_text (name_suffix texts (parts (to_slashes requested))) forbidden_executable_suffixes)
        (blocked "shell, batch, and PowerShell script executables are blocked")
    resolved ← (if is_explicit requested then explicit_path requested else ok none)
    named_executable requested resolved (judged_name requested resolved) environment policy
