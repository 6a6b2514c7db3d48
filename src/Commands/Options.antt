-- ===== src/Commands/Options.antt =====
-- safety/commands.py: options and the paths among the arguments of a command.
use proofcoder.Base.{
  String, ◌⁀◌, Bool, true, false, ◌&&◌, ◌||◌, not, Option, none, some, List, [], ◌∷◌, if◌then◌else◌,
  ◌==◌,
}
use proofcoder.Base.Host.{Texts, Files, FilePath}
use proofcoder.Base.Result.{Result, ok, err, ◌>>=◌, ◌>>◌, raise_if, or_raise}
use proofcoder.Base.Text.{mem_text, has_prefix, has_char, partition_at, before_colons, tail_text}
use proofcoder.Paths.{
  PathError, workspace_error, os_error, value_error, resolve_workspace_argument_path,
}
use proofcoder.Commands.Argv.{CommandError, path_error, blocked, invalid}

abbrev pub option_name : String → String
option_name argument = (partition_at 61 argument).0

-- a path below a path: the same components
unfoldable pub same_path : FilePath → FilePath → Bool
same_path [] [] = true
same_path [] (d ∷ ds) = false
same_path (c ∷ cs) [] = false
same_path (c ∷ cs) (d ∷ ds) = c == d && same_path cs ds

-- What one argument is, and what it takes with it.
pub data Argument : Type 0 where
  separator : Argument
  inline_path : String → String → Argument
  next_path : String → Argument
  special : String → String → Argument
  next_value : String → Argument
  flag : Argument
  path_argument : String → Argument

-- the tables of one program, and whether it has a special handler
pub record OptionTable : Type 0 where
  pub path_options : List String
  pub value_options : List String
  pub reject_workspace_root_options : List String
  pub has_handler : Bool

unfoldable pub option_argument : OptionTable → String → Option String → Argument
option_argument table option (some inline) =
    if mem_text option table.path_options
    then inline_path option inline
    else if table.has_handler
    then special option inline
    else flag
option_argument table option none =
    if mem_text option table.path_options
    then next_path option
    else if mem_text option table.value_options
    then next_value option
    else flag

unfoldable pub argument_of : OptionTable → Bool → String → Argument
unfolding option_argument
argument_of table positional_only argument =
    if argument == "--"
    then separator
    else if not positional_only && has_prefix "-" argument
    then option_argument table (partition_at 61 argument).0 (partition_at 61 argument).1
    else path_argument (if has_prefix "@" argument then tail_text argument else argument)

unfoldable pub looks_path_like : Texts → String → Bool
looks_path_like texts value =
    has_char 47 value
    || (has_char 92 value
        || (has_prefix "." value || (has_prefix "@" value || texts.has_drive value)))

module _ (texts : Texts) (files : Files) (workspace cwd : FilePath) where
  -- a WorkspacePathError becomes the refusal
  unfoldable pub granted_path :
      String → Result PathError (FilePath × String) → Result CommandError FilePath
  granted_path option (ok (path, relative)) = ok path
  granted_path option (err (workspace_error code message)) =
      err (blocked (option ⁀ " path is outside the allowed workspace"))
  granted_path option (err os_error) = err (path_error os_error)
  granted_path option (err value_error) = err (path_error value_error)

  unfoldable pub validate_path_value : String → String → Result CommandError FilePath
  unfolding granted_path
  validate_path_value value option = do
    raise_if (value == "" || value == "-")
        (blocked (option ⁀ " must use a workspace-relative path, not stdin"))
    granted_path option
        (resolve_workspace_argument_path texts files workspace cwd (before_colons value))

  -- a path given to an option, which may not be the workspace itself for some
  unfoldable pub path_option : OptionTable → String → String → Result CommandError (Unit {0})
  path_option table option value = do
    resolved ← validate_path_value value option
    root ← or_raise (files.resolve_strict workspace) (path_error os_error)
    raise_if (mem_text option table.reject_workspace_root_options && same_path resolved root)
        (blocked (option ⁀ " cannot target the workspace root"))

  -- a path whose resolution is not used
  unfoldable pub check_path : String → String → Result CommandError (Unit {0})
  check_path value option = do resolved ← validate_path_value value option; ok tt

  module _ (table : OptionTable) (handler : String → String → Result CommandError (Unit {0})) where
    -- the loop: an option that takes the next argument takes it out of the list
    unfoldable pub options_loop : Bool → List String → Result CommandError (Unit {0})
    unfolding path_option check_path
    options_loop positional_only [] = ok tt
    options_loop positional_only (argument ∷ []) =
        elim (argument_of table positional_only argument) [
          | separator ↦ ok tt
          | inline_path option value ↦ path_option table option value
          | next_path option ↦ err (invalid (option ⁀ " requires a workspace-relative path"))
          | special option value ↦ handler option value
          | next_value option ↦ err (invalid (option ⁀ " requires a value"))
          | flag ↦ ok tt
          | path_argument value ↦ check_path value "command path"
        ]
    options_loop positional_only (argument ∷ value ∷ rest) =
        let all_rest = options_loop positional_only (value ∷ rest) in
        let all_rest_positional = options_loop true (value ∷ rest) in
        let behind = options_loop positional_only rest in
        elim (argument_of table positional_only argument) [
          | separator ↦ all_rest_positional
          | inline_path option inline ↦ path_option table option inline >> all_rest
          | next_path option ↦ path_option table option value >> behind
          | special option inline ↦ handler option inline >> all_rest
          | next_value option ↦ behind
          | flag ↦ all_rest
          | path_argument path ↦ check_path path "command path" >> all_rest
        ]

    unfoldable pub validate_path_options : List String → Result CommandError (Unit {0})
    unfolding options_loop
    validate_path_options arguments = options_loop false arguments
