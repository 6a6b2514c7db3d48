-- ===== src/Commands/Gxx.antt =====
-- safety/commands.py: g++, for one C++17 source file.
use proofcoder.Base.{
  ℕ, zero, suc, String, Bool, true, false, ◌||◌, not, Option, none, some, is_some, List, [], ◌∷◌,
  if◌then◌else◌, ◌==◌,
}
use proofcoder.Base.Host.{Texts, Files, FilePath}
use proofcoder.Base.Result.{Result, ok, err, ◌>>=◌, ◌>>◌, raise_if}
use proofcoder.Base.Text.{has_prefix, to_slashes}
use proofcoder.Base.Posix.{parts}
use proofcoder.Paths.{
  PathError, workspace_error, os_error, value_error, joined, resolve_workspace_argument_path,
}
use proofcoder.Paths.Secrets.{suffix, last_part}
use proofcoder.Commands.Argv.{CommandError, policy_error, path_error, blocked, invalid, not_found}
use proofcoder.Commands.Options.{same_path}
use proofcoder.Commands.Python.{Validated, path_text}

-- What the arguments name: an index is the argument at that place.
pub record GxxArguments : Type 0 where
  pub standard_index : Option ℕ
  pub optimization_index : Option ℕ
  pub output_index : Option ℕ
  pub source_index : Option ℕ

abbrev pub no_arguments : GxxArguments
no_arguments = record {
  standard_index = none;
  optimization_index = none;
  output_index = none;
  source_index = none;
}

-- What one argument is.
pub data GxxArgument : Type 0 where
  standard optimization output special source : GxxArgument

unfoldable pub gxx_argument : String → GxxArgument
gxx_argument argument =
    if argument == "-std=c++17"
    then standard
    else if argument == "-O2"
    then optimization
    else if argument == "-o"
    then output
    else if has_prefix "-" argument || has_prefix "@" argument
    then special
    else source

-- the place of an argument is noted, once
unfoldable pub note_argument : GxxArgument → ℕ → GxxArguments → Result CommandError GxxArguments
note_argument standard index seen = do
  raise_if (is_some seen.standard_index) (invalid "-std=c++17 may appear only once")
  ok (record seen { standard_index = some index })
note_argument optimization index seen = do
  raise_if (is_some seen.optimization_index) (invalid "-O2 may appear only once")
  ok (record seen { optimization_index = some index })
note_argument output index seen = do
  raise_if (is_some seen.output_index) (invalid "-o may appear only once")
  ok (record seen { output_index = some (suc index) })
note_argument special index seen =
    err (blocked "g++ option is outside the restricted single-file C++17 build policy")
note_argument source index seen = do
  raise_if (is_some seen.source_index) (invalid "g++ accepts exactly one C++ source file")
  ok (record seen { source_index = some index })

abbrev pub is_output : GxxArgument → Bool
is_output output = true
is_output _ = false

-- the loop over the arguments, from the place `index`
unfoldable pub read_arguments : ℕ → GxxArguments → List String → Result CommandError GxxArguments
read_arguments index seen [] = ok seen
read_arguments index seen (argument ∷ []) = do
  noted ← note_argument (gxx_argument argument) index seen
  raise_if (is_output (gxx_argument argument))
      (invalid "-o requires one separate workspace-relative output path")
  ok noted
read_arguments index seen (argument ∷ next ∷ rest) =
    note_argument (gxx_argument argument) index seen >>= (λ noted.
      if is_output (gxx_argument argument)
      then read_arguments (suc (suc index)) noted rest
      else read_arguments (suc index) noted (next ∷ rest))

-- arguments[index]
unfoldable pub item_at : ℕ → List String → String
item_at n [] = ""
item_at zero (x ∷ xs) = x
item_at (suc n) (x ∷ xs) = item_at n xs

-- arguments[index] = value
unfoldable pub set_item : ℕ → String → List String → List String
set_item n value [] = []
set_item zero value (x ∷ xs) = value ∷ xs
set_item (suc n) value (x ∷ xs) = x ∷ set_item n value xs

-- a WorkspacePathError keeps its code and message
unfoldable pub gxx_path :
    Result PathError (FilePath × String) → Result CommandError (FilePath × String)
gxx_path (ok found) = ok found
gxx_path (err (workspace_error code message)) = err (policy_error code message)
gxx_path (err os_error) = err (path_error os_error)
gxx_path (err value_error) = err (path_error value_error)

unfoldable pub parent : FilePath → FilePath
parent [] = []
parent (c ∷ []) = []
parent (c ∷ d ∷ cs) = c ∷ parent (d ∷ cs)

module _ (texts : Texts) (files : Files) (workspace cwd : FilePath) where
  unfoldable pub validate_gxx_source : String → Result CommandError (FilePath × String)
  unfolding gxx_path
  validate_gxx_source value = do
    raise_if
        (has_prefix "-" value
          || (has_prefix "@" value
              || not (texts.casefold (suffix (last_part (parts (to_slashes value)))) == ".cpp")))
        (blocked "g++ input must be one workspace-relative .cpp source file")
    (found, relative) ← gxx_path (resolve_workspace_argument_path texts files workspace cwd value)
    raise_if (not (files.exists found)) (not_found "g++ source file does not exist")
    raise_if (not (files.is_file found)) (blocked "g++ source must be a regular file")
    ok (found, relative)

  unfoldable pub validate_gxx_output : String → FilePath → Result CommandError (FilePath × String)
  unfolding gxx_path parent
  validate_gxx_output value source_path = do
    raise_if (has_prefix "-" value || has_prefix "@" value)
        (blocked "g++ output must be one workspace-relative file path")
    (found, relative) ← gxx_path (resolve_workspace_argument_path texts files workspace cwd value)
    raise_if (files.lexists (joined cwd (to_slashes value)))
        (blocked "g++ output already exists and will not be overwritten")
    raise_if (not (files.exists (parent found)) || not (files.is_dir (parent found)))
        (blocked "g++ output parent directory must already exist")
    raise_if (same_path found source_path) (blocked "g++ output cannot be the source file")
    ok (found, relative)

  -- the arguments with the paths in their places
  unfoldable pub paths_in_place :
      List String → Option ℕ → Option ℕ → Option ℕ → Result CommandError Validated
  paths_in_place arguments (some standard_index) (some output_index) (some source_index) = do
    (found, relative_source) ← validate_gxx_source (item_at source_index arguments)
    (target, relative_output) ← validate_gxx_output (item_at output_index arguments) found
    ok (record {
      kind = "build";
      execution_tail =
          set_item output_index (path_text target)
            (set_item source_index (path_text found) arguments);
      display_tail =
          set_item output_index relative_output (set_item source_index relative_source arguments);
    })
  paths_in_place arguments _ _ _ =
      err (invalid "g++ requires -std=c++17, one .cpp source, and one separate -o output")

  unfoldable pub validate_gxx : List String → Result CommandError Validated
  unfolding read_arguments note_argument paths_in_place
  validate_gxx arguments = do
    seen ← read_arguments 0 no_arguments arguments
    paths_in_place arguments seen.standard_index seen.output_index seen.source_index
