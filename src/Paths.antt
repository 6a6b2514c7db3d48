-- ===== src/Paths.antt =====
-- safety/paths.py: tool paths are resolved inside the workspace, or refused.
pub mod Secrets
pub mod Contained
use proofcoder.Base.{
  String, Bool, true, false, ◌&&◌, ◌||◌, not, Option, none, some, List, [], ◌∷◌, ◌++◌,
  if◌then◌else◌, ◌==◌,
}
use proofcoder.Base.Host.{Texts, Files, FilePath}
use proofcoder.Base.Posix.{parts, is_absolute, join_parts}
use proofcoder.Base.Result.{Result, ok, err, ◌>>=◌, ◌>>◌, raise_if, or_raise}
use proofcoder.Base.Text.{mem_text, to_slashes}
use Secrets.{is_sensitive_path, is_command_policy_path, last_part}

-- WorkspacePathError(code, message), and the other exceptions that can pass through
pub data PathError : Type 0 where
  workspace_error : String → String → PathError
  os_error : PathError
  value_error : PathError

abbrev pub outside : String → PathError
outside message = workspace_error "PATH_OUTSIDE_WORKSPACE" message

abbrev pub sensitive : PathError
sensitive =
    workspace_error "SENSITIVE_PATH" "access to sensitive credential or key paths is blocked"

-- candidate.relative_to(root)
unfoldable pub relative_to : FilePath → FilePath → Option FilePath
relative_to [] path = some path
relative_to (r ∷ rs) [] = none
relative_to (r ∷ rs) (c ∷ cs) = if r == c then relative_to rs cs else none

-- base / Path(value): an absolute value replaces the base
unfoldable pub joined : FilePath → String → FilePath
joined base value = if is_absolute value then parts value else base ++ parts value

without_last : List String → List String
without_last [] = []
without_last (c ∷ []) = []
without_last (c ∷ d ∷ cs) = c ∷ without_last (d ∷ cs)

-- base / Path(value).parent
unfoldable pub joined_parent : FilePath → String → FilePath
unfolding without_last
joined_parent base value =
    if is_absolute value then without_last (parts value) else base ++ without_last (parts value)

-- directory / name, where Path(value).name may be ""
unfoldable pub child : FilePath → String → FilePath
child directory name = if name == "" then directory else directory ++ name ∷ []

pub data Expected : Type 0 where
  directory file : Expected

module _ (texts : Texts) (files : Files) where
  unfoldable pub is_absolute_or_drive_qualified : String → Bool
  is_absolute_or_drive_qualified requested = is_absolute requested || texts.has_drive requested

  unfoldable pub is_internal_runtime_path : String → Bool
  is_internal_runtime_path relative = elim (parts relative) [
    | [] ↦ false
    | first ∷ rest ↦ texts.casefold first == ".proofcoder"
  ]

  -- every exception of `resolve` and `relative_to` becomes the refusal
  unfoldable pub is_within : FilePath → FilePath → Bool
  is_within root candidate = elim (files.resolve candidate) [
    | none ↦ false
    | some resolved ↦ elim (files.resolve_strict root) [
      | none ↦ false
      | some base ↦ elim (relative_to base resolved) [ none ↦ false | some rest ↦ true ]
    ]
  ]

  unfoldable pub ensure_within_workspace : FilePath → FilePath → Result PathError (Unit {0})
  ensure_within_workspace root candidate =
      raise_if (not (is_within root candidate))
        (outside "resolved path leaves the selected workspace")

  unfoldable pub is_blocked : String → String → Bool
  is_blocked requested relative =
      is_sensitive_path texts requested
      || (is_sensitive_path texts relative || is_internal_runtime_path relative)

  unfoldable pub ensure_writable_path : String → Result PathError (Unit {0})
  ensure_writable_path relative =
      raise_if (is_command_policy_path texts relative)
        (workspace_error "POLICY_PATH_BLOCKED" "writing a project command policy file is blocked")

  abbrev pub is_other_kind : Expected → FilePath → Bool
  is_other_kind directory path = not (files.is_dir path)
  is_other_kind file path = not (files.is_file path)

  abbrev pub kind_error : Expected → PathError
  kind_error directory = workspace_error "NOT_A_DIRECTORY" "requested path is not a directory"
  kind_error file = workspace_error "NOT_A_FILE" "requested path is not a regular file"

  unfoldable pub resolve_workspace_path :
      FilePath → String → Expected → Result PathError (FilePath × String)
  unfolding ensure_within_workspace is_blocked
  resolve_workspace_path workspace requested expected = do
    root ← or_raise (files.resolve_strict workspace) os_error
    raise_if (is_absolute_or_drive_qualified requested)
        (outside "path must be relative to the selected workspace")
    resolved ← or_raise (files.resolve (joined root (to_slashes requested))) os_error
    ensure_within_workspace root resolved
    rest ← or_raise (relative_to root resolved) value_error
    let relative = join_parts rest
    raise_if (is_blocked (to_slashes requested) relative) sensitive
    raise_if (not (files.exists resolved))
        (workspace_error "PATH_NOT_FOUND" "requested path does not exist")
    raise_if (is_other_kind expected resolved) (kind_error expected)
    ok (resolved, relative)

  unfoldable pub resolve_workspace_new_file :
      FilePath → String → Result PathError (FilePath × String)
  unfolding ensure_within_workspace ensure_writable_path is_blocked
  resolve_workspace_new_file workspace requested = do
    root ← or_raise (files.resolve_strict workspace) os_error
    raise_if (is_absolute_or_drive_qualified requested)
        (outside "path must be relative to the selected workspace")
    let value = to_slashes requested
    raise_if (last_part (parts value) == "..")
        (outside "path must stay within the selected workspace")
    parent ← or_raise (files.resolve (joined_parent root value)) os_error
    ensure_within_workspace root parent
    let target = child parent (last_part (parts value))
    rest ← or_raise (relative_to root target) value_error
    let relative = join_parts rest
    raise_if (is_blocked value relative) sensitive
    ensure_writable_path relative
    raise_if (not (files.exists parent))
        (workspace_error "PARENT_NOT_FOUND" "target parent directory does not exist")
    raise_if (not (files.is_dir parent))
        (workspace_error "NOT_A_DIRECTORY" "target parent path is not a directory")
    raise_if (files.lexists target) (
        workspace_error "PATH_ALREADY_EXISTS"
          "target path already exists and will not be overwritten")
    ok (target, relative)

  unfoldable pub resolve_workspace_new_directory :
      FilePath → String → Result PathError (FilePath × String)
  unfolding ensure_within_workspace ensure_writable_path is_blocked
  resolve_workspace_new_directory workspace requested = do
    root ← or_raise (files.resolve_strict workspace) os_error
    raise_if (is_absolute_or_drive_qualified requested)
        (outside "path must be relative to the selected workspace")
    let value = to_slashes requested
    raise_if (mem_text (last_part (parts value)) ("" ∷ "." ∷ ".." ∷ []))
        (outside "path must name one directory inside the selected workspace")
    parent ← or_raise (files.resolve (joined_parent root value)) os_error
    ensure_within_workspace root parent
    let target = child parent (last_part (parts value))
    rest ← or_raise (relative_to root target) value_error
    let relative = join_parts rest
    raise_if (is_blocked value relative) sensitive
    ensure_writable_path relative
    ok (target, relative)

  unfoldable pub resolve_workspace_existing_path :
      FilePath → String → Result PathError (FilePath × String)
  unfolding ensure_within_workspace ensure_writable_path is_blocked
  resolve_workspace_existing_path workspace requested = do
    root ← or_raise (files.resolve_strict workspace) os_error
    raise_if (is_absolute_or_drive_qualified requested)
        (outside "path must be relative to the selected workspace")
    let value = to_slashes requested
    raise_if (mem_text (last_part (parts value)) ("" ∷ "." ∷ ".." ∷ []))
        (outside "path must name one entry inside the selected workspace")
    parent ← or_raise (files.resolve (joined_parent root value)) os_error
    ensure_within_workspace root parent
    let target = child parent (last_part (parts value))
    rest ← or_raise (relative_to root target) value_error
    let relative = join_parts rest
    raise_if (is_blocked value relative) sensitive
    ensure_writable_path relative
    raise_if (not (files.is_dir parent))
        (workspace_error "PATH_NOT_FOUND" "parent directory does not exist")
    raise_if (not (files.lexists target))
        (workspace_error "PATH_NOT_FOUND" "requested path does not exist")
    ok (target, relative)

  unfoldable pub resolve_workspace_argument_path :
      FilePath → FilePath → String → Result PathError (FilePath × String)
  unfolding ensure_within_workspace is_blocked
  resolve_workspace_argument_path workspace cwd requested = do
    root ← or_raise (files.resolve_strict workspace) os_error
    raise_if (is_absolute_or_drive_qualified requested)
        (outside "command path arguments must be workspace relative")
    resolved ← or_raise (files.resolve (joined cwd (to_slashes requested))) os_error
    ensure_within_workspace root resolved
    rest ← or_raise (relative_to root resolved) value_error
    let relative = join_parts rest
    raise_if (is_sensitive_path texts requested || is_sensitive_path texts relative) sensitive
    raise_if (is_internal_runtime_path relative)
        (workspace_error "SENSITIVE_PATH" "access to internal runtime paths is blocked")
    ok (resolved, relative)
