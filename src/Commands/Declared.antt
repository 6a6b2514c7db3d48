-- ===== src/Commands/Declared.antt =====
-- safety/commands.py: a command that a project policy declares.
use proofcoder.Base.{
  String, ◌⁀◌, Bool, true, false, ◌&&◌, ◌||◌, not, List, [], ◌∷◌, if◌then◌else◌, ◌==◌, map,
}
use proofcoder.Base.Host.{Texts, Files, FilePath}
use proofcoder.Base.Result.{Result, ok, err, ◌>>=◌, ◌>>◌, raise_if}
use proofcoder.Base.Text.{mem_text, has_prefix}
use proofcoder.Commands.Argv.{CommandError, blocked}
use proofcoder.Commands.Options.{option_name, looks_path_like, check_path}
use proofcoder.Policy.{PolicyEntry}

module _ (texts : Texts) (files : Files) (workspace cwd : FilePath) where
  module _ (entry : PolicyEntry) where
    unfoldable pub refused : String → CommandError
    refused what = blocked ("'" ⁀ (entry.executable ⁀ ("' " ⁀ what)))

    unfoldable pub entry_argument : Bool → String → Result CommandError (Unit {0})
    entry_argument after_separator argument =
        if not after_separator && has_prefix "-" argument
        then raise_if
            (not
              (mem_text (texts.casefold (option_name argument)) (map texts.casefold entry.options)))
            (refused "option is not declared by the project policy")
        else if after_separator || looks_path_like texts argument
        then check_path texts files workspace cwd argument "project policy path"
        else ok tt

    unfoldable pub entry_arguments : Bool → List String → Result CommandError (Unit {0})
    entry_arguments after_separator [] = ok tt
    entry_arguments after_separator (argument ∷ rest) =
        let separated = entry_arguments true rest in
        let same = entry_arguments after_separator rest in
        if argument == "--" then separated else entry_argument after_separator argument >> same

    -- what is left of the arguments behind a declared subcommand
    unfoldable pub declared_subcommand :
        List String → List String → Result CommandError (List String)
    declared_subcommand [] arguments = ok arguments
    declared_subcommand (s ∷ ss) [] =
        err (refused "requires a subcommand declared by the project policy")
    declared_subcommand (s ∷ ss) (argument ∷ arguments) = do
      raise_if (not (mem_text (texts.casefold argument) (map texts.casefold (s ∷ ss))))
          (refused "subcommand is not declared by the project policy")
      ok arguments

    unfoldable pub validate_policy_entry : List String → Result CommandError (Unit {0})
    unfolding refused entry_argument entry_arguments declared_subcommand
    validate_policy_entry arguments = do
      remaining ← declared_subcommand entry.subcommands arguments
      entry_arguments false remaining
