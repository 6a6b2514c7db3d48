-- ===== src/Commands/Git.antt =====
-- safety/commands.py: git.
use proofcoder.Base.{String, Bool, true, false, ◌&&◌, ◌||◌, not, List, [], ◌∷◌, if◌then◌else◌, ◌==◌}
use proofcoder.Base.Host.{Texts, Files, FilePath}
use proofcoder.Base.Result.{Result, ok, err, ◌>>=◌, ◌>>◌, raise_if}
use proofcoder.Base.Text.{mem_text, has_prefix}
use proofcoder.Commands.Argv.{CommandError, blocked, invalid}
use proofcoder.Commands.Options.{option_name, looks_path_like, check_path}
use proofcoder.Commands.Tables.{
  git_read_subcommands, git_write_subcommands, git_confirm_subcommands, git_blocked_options,
}
use proofcoder.Policy.{CommandDecision, allow, confirm}

unfoldable pub git_decision : String → Result CommandError CommandDecision
git_decision subcommand =
    if mem_text subcommand git_confirm_subcommands
    then ok confirm
    else if mem_text subcommand git_write_subcommands
    then err (blocked "Git network and configuration operations are blocked")
    else if mem_text subcommand git_read_subcommands
    then ok allow
    else err (blocked "Git subcommand is not in the allowlist")

-- git -C and -c
abbrev pub changes_scope : String → Bool
changes_scope argument = has_prefix "-C" argument || argument == "-c"

module _ (texts : Texts) (files : Files) (workspace cwd : FilePath) where
  unfoldable pub git_argument : Bool → String → Result CommandError (Unit {0})
  git_argument after_separator argument = do
    raise_if (changes_scope argument) (blocked "Git scope/configuration options are blocked")
    raise_if (mem_text (option_name argument) git_blocked_options)
        (blocked "Git scope, output, or external-program option is blocked")
    (if after_separator || (not (has_prefix "-" argument) && looks_path_like texts argument)
        then check_path texts files workspace cwd argument "git path"
        else ok tt)

  unfoldable pub git_arguments : Bool → List String → Result CommandError (Unit {0})
  git_arguments after_separator [] = ok tt
  git_arguments after_separator (argument ∷ rest) =
      let separated = git_arguments true rest in
      let same = git_arguments after_separator rest in
      if argument == "--" then separated else git_argument after_separator argument >> same

  unfoldable pub validate_git : List String → Result CommandError CommandDecision
  unfolding git_decision git_argument git_arguments
  validate_git [] = err (invalid "git requires a subcommand")
  validate_git (subcommand ∷ arguments) = do
    decision ← git_decision (texts.casefold subcommand)
    git_arguments false arguments
    ok decision
