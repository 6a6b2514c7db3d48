-- ===== src/Commands/Clean.antt =====
-- safety/commands.py: the names in the environment of a command.
use proofcoder.Base.{
  String, ◌≡◌, refl, ◌⊎◌, true, false, Option, none, some, is_some, [], ◌∷◌, ◌++◌, if◌then◌else◌,
  ◌==◌, arith, inl, inr, Bool-cases, All,
}
use proofcoder.Base.Dict.{Dict, lookup, insert, keys, lookup-insert}
use proofcoder.Base.Text.{mem_text}
use proofcoder.Commands.Environment.{
  allowed_environment_names, command_environment_defaults, git_environment, updated_with,
  EnvironmentTexts, is_sensitive_environment_name, filtered, minimal_subprocess_environment,
  command_environment,
}

-- the names that a command always gets, whatever the environment of the program
abbrev pub fixed_environment : Dict String
fixed_environment = git_environment ++ command_environment_defaults

-- A name that a command may get: a fixed one, or an allowed one that resembles no credential.
abbrev pub IsAllowedName : EnvironmentTexts → String → Type 0
IsAllowedName names k =
    (mem_text k (keys fixed_environment) ≡ true)
    ⊎ ((mem_text k allowed_environment_names ≡ true)
        × ((k ≡ "PATH") ⊎ (is_sensitive_environment_name names k ≡ false)))

keys-insert-All :
    (P : String → Type 0) (k v : String) (d : Dict String)
    → P k
    → All P (keys d)
    → All P (keys (insert k v d))
unfolding insert
keys-insert-All P k v [] h hs = (h, tt)
keys-insert-All P k v ((j, w) ∷ d) h hs = elim (Bool-cases (j == k)) [
  | inl same ↦ rw same hs
  | inr other ↦ rw other (hs.0, keys-insert-All P k v d h hs.1)
]

keys-updated_with-All :
    (P : String → Type 0) (entries d : Dict String)
    → All P (keys entries)
    → All P (keys d)
    → All P (keys (updated_with entries d))
unfolding updated_with
keys-updated_with-All P [] d es ds = ds
keys-updated_with-All P ((k, v) ∷ entries) d es ds =
    keys-updated_with-All P entries (insert k v d) es.1 (keys-insert-All P k v d es.0 ds)

module _ (names : EnvironmentTexts) where
  filtered_lem :
      (source result : Dict String)
      → All (IsAllowedName names) (keys result)
      → All (IsAllowedName names) (keys (filtered names source result))
  unfolding filtered
  filtered_lem [] result h = h
  filtered_lem ((name, value) ∷ source) result h =
      let upper_name = names.upper name in
      elim (Bool-cases (mem_text upper_name allowed_environment_names)) [
        | inr unknown ↦ rw unknown (filtered_lem source result h)
        | inl allowed ↦
            rw allowed (elim (Bool-cases (is_sensitive_environment_name names upper_name)) [
              | inl sensitive ↦ rw sensitive (filtered_lem source result h)
              | inr open_name ↦ rw open_name (
                  filtered_lem source (insert upper_name value result) (
                    keys-insert-All (IsAllowedName names) upper_name value result
                      (inr (allowed, inr open_name)) h))
            ])
      ]

  fixed_names : All (IsAllowedName names) (keys fixed_environment)
  unfolding mem_text
  fixed_names = (
    inl refl,
    (
      inl refl,
      (
        inl refl,
        (inl refl, (inl refl, (inl refl, (inl refl, (inl refl, (inl refl, (inl refl, tt))))))),
      ),
    ),
  )

  command_environment-keys :
      (environ : Dict String) → All (IsAllowedName names) (keys (command_environment names environ))
  unfolding command_environment minimal_subprocess_environment mem_text
  command_environment-keys environ =
      let (g, (h, (i, defaults))) = fixed_names in
      keys-updated_with-All (IsAllowedName names) git_environment _ (g, (h, (i, tt)))
        (keys-insert-All (IsAllowedName names) "PATH" _ _ (inr (refl, inl refl)) (
          keys-updated_with-All (IsAllowedName names) command_environment_defaults _ defaults
            (filtered_lem environ [] tt)))

-- the value that an updated_with gives a name
last_value : String → Dict String → Option String
last_value k [] = none
last_value k ((j, w) ∷ entries) =
    let later = last_value k entries in
    if is_some later then later else if j == k then some w else none

abbrev or_lookup : Option String → Option String → Option String
or_lookup none found = found
or_lookup (some v) found = some v

lookup-updated_with :
    (k : String) (entries d : Dict String)
    → lookup k (updated_with entries d) ≡ or_lookup (last_value k entries) (lookup k d)
unfolding updated_with last_value
lookup-updated_with k [] d = refl
lookup-updated_with k ((j, w) ∷ entries) d =
    ground (arith, lookup-updated_with k entries (insert j w d), lookup-insert j k w d)

module _ (names : EnvironmentTexts) (environ : Dict String) where
  git_value :
      (k v : String)
      → last_value k git_environment ≡ some v
      → lookup k (command_environment names environ) ≡ some v
  unfolding command_environment
  git_value k v g = rw (lookup-updated_with k git_environment _, g) refl

  default_value :
      (k v : String)
      → last_value k git_environment ≡ none
      → ("PATH" == k) ≡ false
      → last_value k command_environment_defaults ≡ some v
      → lookup k (command_environment names environ) ≡ some v
  unfolding command_environment minimal_subprocess_environment
  default_value k v g other e =
      rw (lookup-updated_with k git_environment _, g)
        (rw (lookup-insert "PATH" k _ _, other)
          (rw (lookup-updated_with k command_environment_defaults _, e) refl))

  -- A command gets no name of the program's environment that resembles a credential, nor any that is
  -- not allowed, and each of the fixed names with its fixed value, whatever the program's environment.
  pub command_environment-IsAllowedName :
      All (IsAllowedName names) (keys (command_environment names environ))
      × All (λ (k, v). lookup k (command_environment names environ) ≡ some v) fixed_environment
  unfolding last_value
  command_environment-IsAllowedName = (
    command_environment-keys names environ,
    (
      git_value "GIT_ATTR_NOSYSTEM" "1" refl,
      (
        git_value "GIT_CONFIG_NOSYSTEM" "1" refl,
        (
          git_value "GIT_OPTIONAL_LOCKS" "0" refl,
          (
            default_value "GIT_PAGER" "cat" refl refl refl,
            (
              default_value "GIT_TERMINAL_PROMPT" "0" refl refl refl,
              (
                default_value "NO_COLOR" "1" refl refl refl,
                (
                  default_value "PAGER" "cat" refl refl refl,
                  (
                    default_value "PYTHONIOENCODING" "utf-8" refl refl refl,
                    (
                      default_value "PYTHONUTF8" "1" refl refl refl,
                      (default_value "TERM" "dumb" refl refl refl, tt),
                    ),
                  ),
                ),
              ),
            ),
          ),
        ),
      ),
    ),
  )
