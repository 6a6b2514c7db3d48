-- ===== src/Commands/Positional.antt =====
-- safety/commands.py: the arguments of pytest, unittest, compileall and ruff that are no options.
use proofcoder.Base.{String, ◌≡◌, ◌⊎◌, Bool, true, false, ◌||◌, List, [], ◌∷◌, if◌then◌else◌}
use proofcoder.Base.Host.{Texts, Files, FilePath}
use proofcoder.Base.Result.{Result, ok}
use proofcoder.Base.Text.{mem_text, has_prefix, partition_at, tail_text}
use proofcoder.Paths.Contained.{ResolvesDots}
use proofcoder.Commands.Argv.{CommandError}
use proofcoder.Commands.Options.{OptionTable, options_loop}

-- the path that a positional argument names: pytest reads `@file` as the file
abbrev pub operand : String → String
operand argument = if has_prefix "@" argument then tail_text argument else argument

-- an option that is followed by a value of its own
abbrev pub takes_next : OptionTable → String → Bool
takes_next table argument =
    mem_text (partition_at 61 argument).0 table.path_options
    || mem_text (partition_at 61 argument).0 table.value_options

-- the last of the arguments is an option that is followed by a value of its own
abbrev pub follows_option : OptionTable → List String → Bool
follows_option table [] = false
follows_option table (b ∷ []) = takes_next table b
follows_option table (b ∷ c ∷ before) = follows_option table (c ∷ before)

module _ (texts : Texts) (files : Files) (dots : ResolvesDots files)
    (workspace cwd : FilePath) where
  module _ (table : OptionTable) (handler : String → String → Result CommandError (Unit {0})) where
    -- A step of the loop passes over one argument, or over an option and its value.
    abbrev Step : Bool → String → String → List String → Type 0
    Step positional_only argument next rest =
        ((q : Bool) × (options_loop texts files workspace cwd table handler q (next ∷ rest)
            ≡ ok tt))
        ⊎ ((takes_next table argument ≡ true)
            × (options_loop texts files workspace cwd table handler positional_only rest ≡ ok tt))
