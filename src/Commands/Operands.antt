-- ===== src/Commands/Operands.antt =====
-- safety/commands.py: the arguments of git and of a declared command.
use proofcoder.Base.{
  subst, ap, refl, String, ◌≡◌, Bool, true, false, ◌&&◌, ◌||◌, not, List, [], ◌∷◌, ◌++◌, ◌==◌,
  arith, map, inl, inr, Bool-cases,
}
use proofcoder.Base.Host.{Texts, Files, FilePath}
use proofcoder.Base.Result.{ok, Result-cases}
use proofcoder.Base.Text.{mem_text, has_prefix, before_colons}
use proofcoder.Paths.{resolve_workspace_argument_path}
use proofcoder.Paths.Contained.{
  ResolvesDots, IsGranted, IsResolved, resolve_workspace_argument_path-IsGranted,
}
use proofcoder.Policy.{CommandDecision, PolicyEntry}
use proofcoder.Commands.Options.{
  option_name, looks_path_like, granted_path, validate_path_value, check_path,
}
use proofcoder.Commands.Tables.{git_blocked_options}
use proofcoder.Commands.Git.{changes_scope, git_argument, git_arguments, validate_git}
use proofcoder.Commands.Declared.{
  entry_argument, entry_arguments, declared_subcommand, validate_policy_entry,
}

module _ (texts : Texts) (files : Files) (workspace cwd : FilePath) where
  -- A text whose part before the first `::` names a path that a command may use.
  pub record IsWorkspacePath (value : String) : Type 0 where
    pub path : FilePath
    pub relative : String
    pub some_path : (value == "" || value == "-") ≡ false
    pub granted : IsGranted texts files workspace path relative
    pub resolved : IsResolved texts files workspace cwd (before_colons value) path

  pub check_path_lem :
      ResolvesDots files
      → (value option : String) → check_path texts files workspace cwd value option ≡ ok tt
      → IsWorkspacePath value
  unfolding check_path validate_path_value granted_path
  check_path_lem dots value option e =
      elim (Result-cases
        (resolve_workspace_argument_path texts files workspace cwd (before_colons value))) [
          | inl ((path, relative), found) ↦
              let (granted, resolved) =
                resolve_workspace_argument_path-IsGranted texts files dots workspace cwd
                  (before_colons value) found in
              record {
                path = path;
                relative = relative;
                some_path = ground arith;
                granted = granted;
                resolved = resolved;
              }
          | inr (x, failed) ↦ absurd (ground arith)
        ]

  git_arguments_lem :
      (after : Bool) (before : List String) (argument : String) (behind : List String)
      → git_arguments texts files workspace cwd after (before ++ argument ∷ behind) ≡ ok tt
      → (argument == "--") ≡ false
      → git_argument texts files workspace cwd (after || mem_text "--" before) argument ≡ ok tt
  unfolding git_arguments mem_text
  git_arguments_lem after [] argument behind e other = elim (Bool-cases after) [
    | inl set ↦ ground arith
    | inr unset ↦ ground arith
  ]
  git_arguments_lem after (b ∷ before) argument behind e other = elim (Bool-cases (b == "--")) [
    | inl separator ↦
        let rest : git_arguments texts files workspace cwd true (before ++ argument ∷ behind)
            ≡ ok tt =
          ground arith in
        rw separator (ground (arith, git_arguments_lem true before argument behind rest other))
    | inr plain ↦
        let rest : git_arguments texts files workspace cwd after (before ++ argument ∷ behind)
            ≡ ok tt =
          ground arith in
        rw plain (git_arguments_lem after before argument behind rest other)
  ]

  git_argument_lem :
      ResolvesDots files
      → (after : Bool) (argument : String)
      → git_argument texts files workspace cwd after argument ≡ ok tt
      → (changes_scope argument ≡ false)
        × (mem_text (option_name argument) git_blocked_options ≡ false)
        × ((after || (not (has_prefix "-" argument) && looks_path_like texts argument)) ≡ true
            → IsWorkspacePath argument)
  unfolding git_argument
  git_argument_lem dots after argument e = (
    ground arith,
    ground arith,
    λ used. check_path_lem dots argument "git path" (ground (arith, used)),
  )

  -- Every argument of a git command that is accepted, behind its subcommand and other than `--`, is no
  -- -C, -c or blocked option, whatever stands before it; and where it stands behind a `--`, or starts
  -- with no dash and looks like a path, the part before its first `::` resolves, against the command's
  -- directory, to a path that lies in the workspace and is neither sensitive nor internal.
  pub validate_git-IsWorkspacePath :
      ResolvesDots files
      → (subcommand argument : String) (before behind : List String) {decision : CommandDecision}
      → validate_git texts files workspace cwd (subcommand ∷ before ++ argument ∷ behind)
        ≡ ok decision
      → (argument == "--") ≡ false
      → (changes_scope argument ≡ false)
        × (mem_text (option_name argument) git_blocked_options ≡ false)
        × ((mem_text "--" before
                || (not (has_prefix "-" argument) && looks_path_like texts argument))
              ≡ true
            → IsWorkspacePath argument)
  unfolding validate_git
  validate_git-IsWorkspacePath dots subcommand argument before behind e other =
      git_argument_lem dots (mem_text "--" before) argument
        (git_arguments_lem false before argument behind (ground arith) other)

  entry_arguments_lem :
      (entry : PolicyEntry) (after : Bool) (before : List String) (argument : String)
      (behind : List String)
      → entry_arguments texts files workspace cwd entry after (before ++ argument ∷ behind) ≡ ok tt
      → (argument == "--") ≡ false
      → entry_argument texts files workspace cwd entry (after || mem_text "--" before) argument
        ≡ ok tt
  unfolding entry_arguments mem_text
  entry_arguments_lem entry after [] argument behind e other = elim (Bool-cases after) [
    | inl set ↦ ground arith
    | inr unset ↦ ground arith
  ]
  entry_arguments_lem entry after (b ∷ before) argument behind e other =
      elim (Bool-cases (b == "--")) [
        | inl separator ↦
            let rest : entry_arguments texts files workspace cwd entry true
                  (before ++ argument ∷ behind)
                ≡ ok tt =
              ground arith in
            rw separator
              (ground (arith, entry_arguments_lem entry true before argument behind rest other))
        | inr plain ↦
            let rest : entry_arguments texts files workspace cwd entry after
                  (before ++ argument ∷ behind)
                ≡ ok tt =
              ground arith in
            rw plain (entry_arguments_lem entry after before argument behind rest other)
      ]

  entry_argument_lem :
      ResolvesDots files
      → (entry : PolicyEntry) (after : Bool) (argument : String)
      → entry_argument texts files workspace cwd entry after argument ≡ ok tt
      → ((not after && has_prefix "-" argument) ≡ true
          → mem_text (texts.casefold (option_name argument)) (map texts.casefold entry.options)
            ≡ true)
        × ((not after && has_prefix "-" argument) ≡ false
            → (after || looks_path_like texts argument) ≡ true
            → IsWorkspacePath argument)
  unfolding entry_argument
  entry_argument_lem dots entry after argument e = (
    λ option. ground (arith, option),
    λ operand used.
        check_path_lem dots argument "project policy path" (ground (arith, operand, used)),
  )

  -- What an accepted declared command is: the arguments that are left behind a declared subcommand,
  -- where the entry has any, and of these the declared options and the paths.
  pub record IsDeclaredUse (entry : PolicyEntry) (arguments : List String) : Type 0 where
    pub remaining : List String
    pub without_subcommands : entry.subcommands ≡ [] → remaining ≡ arguments
    pub with_subcommands :
        (s : String) (ss : List String)
        → entry.subcommands ≡ s ∷ ss
        → (subcommand : String) × (arguments ≡ subcommand ∷ remaining)
          × (mem_text (texts.casefold subcommand) (map texts.casefold entry.subcommands) ≡ true)
    pub options :
        (before : List String) (argument : String) (behind : List String)
        → remaining ≡ before ++ argument ∷ behind
        → (argument == "--") ≡ false
        → (not (mem_text "--" before) && has_prefix "-" argument) ≡ true
        → mem_text (texts.casefold (option_name argument)) (map texts.casefold entry.options) ≡ true
    pub operands :
        (before : List String) (argument : String) (behind : List String)
        → remaining ≡ before ++ argument ∷ behind
        → (argument == "--") ≡ false
        → (not (mem_text "--" before) && has_prefix "-" argument) ≡ false
        → (mem_text "--" before || looks_path_like texts argument) ≡ true
        → IsWorkspacePath argument

  remaining_lem :
      (entry : PolicyEntry) (subcommands arguments : List String) {remaining : List String}
      → entry.subcommands ≡ subcommands
      → declared_subcommand texts files workspace cwd entry subcommands arguments ≡ ok remaining
      → (subcommands ≡ [] → remaining ≡ arguments)
        × ((s : String) (ss : List String)
            → subcommands ≡ s ∷ ss
            → (subcommand : String) × (arguments ≡ subcommand ∷ remaining)
              × (mem_text (texts.casefold subcommand) (map texts.casefold subcommands) ≡ true))
  unfolding declared_subcommand
  remaining_lem entry [] arguments same e = (λ none_there. ground arith, λ s ss h. absurd (cc h))
  remaining_lem entry (t ∷ ts) [] same e = absurd (ground arith)
  remaining_lem entry (t ∷ ts) (argument ∷ arguments) {remaining} same e =
      let rest : arguments ≡ remaining = ground arith in
      (λ h. absurd (cc h), λ s ss h. (argument, ap (λ r. argument ∷ r) rest, ground arith))

  -- A command that a project policy declares is accepted only with a declared subcommand first, where
  -- the entry has subcommands; of the arguments behind it, or of all where it has none, each other than
  -- `--` that starts with a dash before any `--` is a declared option, and each other one that stands
  -- behind a `--` or looks like a path names, before its first `::`, a path that resolves into the
  -- workspace and is neither sensitive nor internal.
  pub validate_policy_entry-IsDeclaredUse :
      ResolvesDots files
      → (entry : PolicyEntry) (arguments : List String)
      → validate_policy_entry texts files workspace cwd entry arguments ≡ ok tt
      → IsDeclaredUse entry arguments
  unfolding validate_policy_entry
  validate_policy_entry-IsDeclaredUse dots entry arguments e =
      elim (Result-cases
        (declared_subcommand texts files workspace cwd entry entry.subcommands arguments)) [
          | inr (x, failed) ↦ absurd (ground arith)
          | inl (remaining, found) ↦
              let (without, with) = remaining_lem entry entry.subcommands arguments refl found in
              let checked : entry_arguments texts files workspace cwd entry false remaining
                  ≡ ok tt =
                ground arith in
              let each =
                λ (before : List String) (argument : String) (behind : List String)
                    (split : remaining ≡ before ++ argument ∷ behind)
                    (other : (argument == "--") ≡ false).
                  entry_argument_lem dots entry (mem_text "--" before) argument (
                    entry_arguments_lem entry false before argument behind
                      (subst (λ r. entry_arguments texts files workspace cwd entry false r ≡ ok tt)
                        split checked)
                      other) in
              record {
                remaining = remaining;
                without_subcommands = without;
                with_subcommands = with;
                options = λ before argument behind split other.
                    (each before argument behind split other).0;
                operands = λ before argument behind split other.
                    (each before argument behind split other).1;
              }
        ]
