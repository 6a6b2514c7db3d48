-- ===== src/Commands/Prepared.antt =====
-- safety/commands.py: the commands that prepare_command accepts.
use proofcoder.Base.{
  ℕ, ◌≤◌, String, ◌≡◌, ◌≢◌, refl, ◌⊎◌, true, false, Option, none, some, List, [], ◌∷◌, ◌==◌, eq_iff,
  arith, inl, inr, subst, length, All,
}
use proofcoder.Base.Dict.{Dict}
use proofcoder.Base.Host.{Texts, Files, FilePath}
use proofcoder.Base.Int.{pos, negsuc}
use proofcoder.Base.Result.{ok, ◌>>=◌, raise_if, or_raise, Result-cases, bind_ok}
use proofcoder.Base.Text.{mem_text}
use proofcoder.Json.{Json, null, bool, int, real, str, arr, obj, Fields, get}
use proofcoder.Policy.{CommandDecision, allow, confirm, deny, PolicyEntry, CommandPolicy}
use proofcoder.Commands.Argv.{
  path_error, validated_argv, IsArgument, total_characters, validated_argv_bounds,
}
use proofcoder.Paths.{os_error, directory, resolve_workspace_path}
use proofcoder.Commands.Python.{raise_path}
use proofcoder.Commands.Git.{git_decision, validate_git}
use proofcoder.Commands.Environment.{
  EnvironmentTexts, command_environment, sensitive_environment_values,
}
use proofcoder.Commands.Executable.{Machine, resolve_executable}
use proofcoder.Commands.Runnable.{IsRunnable, resolve_executable-IsRunnable}
use proofcoder.Commands.Prepare.{
  PreparedCommand, prepare_command, entry_of, contains_secret, cwd_argument, head_or_empty,
  tail_or_empty, Classified, builtin, git_kind, timeout_argument, classify_declared, classify,
}

-- The programs that the built-in policy judges.
abbrev pub judged_names : List String
judged_names = "python" ∷ "pytest" ∷ "ruff" ∷ "git" ∷ "g++" ∷ []

-- The built-in policy decides: it asks only for git.
pub record IsBuiltin (name : String) (decided : CommandDecision) (decided_by : String)
    : Type 0 where
  pub judged : mem_text name judged_names ≡ true
  pub from_builtin : decided_by ≡ "builtin"
  pub allows_or_asks : (decided ≡ allow) ⊎ ((decided ≡ confirm) × (name ≡ "git"))

-- An entry of the project policy decides, about a program that the built-in policy does not judge.
pub record IsDeclared (name : String) (entry : Option PolicyEntry) (decided : CommandDecision)
    (decided_by kind : String) : Type 0 where
  pub declared : PolicyEntry
  pub found : entry ≡ some declared
  pub not_judged : mem_text name judged_names ≡ false
  pub from_policy : decided_by ≡ "policy"
  pub same_decision : decided ≡ declared.decision
  pub same_kind : kind ≡ declared.kind

-- The program has one of the judged names, or none of them.
name_cases :
    (name : String)
    → (((((name ≡ "python") ⊎ (name ≡ "pytest")) ⊎ (name ≡ "ruff"))
        ⊎ ((name ≡ "git") ⊎ (name ≡ "g++"))))
      ⊎ ((mem_text name judged_names ≡ false)
          × ((name == "python") ≡ false)
          × ((name == "pytest") ≡ false)
          × ((name == "ruff") ≡ false)
          × ((name == "git") ≡ false)
          × ((name == "g++") ≡ false))
unfolding mem_text
name_cases name = ground (
  arith,
  eq_iff name "python",
  eq_iff name "pytest",
  eq_iff name "ruff",
  eq_iff name "git",
  eq_iff name "g++",
  eq_iff "python" name,
  eq_iff "pytest" name,
  eq_iff "ruff" name,
  eq_iff "git" name,
  eq_iff "g++" name,
)

git_decision_lem :
    (subcommand : String) {decision : CommandDecision}
    → git_decision subcommand ≡ ok decision
    → decision ≢ deny
unfolding git_decision
git_decision_lem subcommand e denied = ground (arith, denied)

validate_git_lem :
    (texts : Texts) (files : Files) (workspace cwd : FilePath) (tail : List String)
    {decision : CommandDecision}
    → validate_git texts files workspace cwd tail ≡ ok decision
    → (decision ≡ allow) ⊎ (decision ≡ confirm)
unfolding validate_git
validate_git_lem texts files workspace cwd [] e = absurd (ground arith)
validate_git_lem texts files workspace cwd (s ∷ tail) {decision = allow} e = inl refl
validate_git_lem texts files workspace cwd (s ∷ tail) {decision = confirm} e = inr refl
validate_git_lem texts files workspace cwd (s ∷ tail) {decision = deny} e =
    absurd (git_decision_lem (texts.casefold s) {decision = deny} (ground arith) refl)

module _ (texts : Texts) (files : Files) (workspace cwd : FilePath) where
  Judgement : String → Option PolicyEntry → Classified → Type 0
  Judgement name entry c =
      IsBuiltin name c.decided c.decided_by
      ⊎ IsDeclared name entry c.decided c.decided_by c.validated.kind

  declared_lem :
      (name : String) (entry : Option PolicyEntry) (tail : List String) {c : Classified}
      → classify_declared texts files workspace cwd entry tail ≡ ok c
      → mem_text name judged_names ≡ false
      → IsDeclared name entry c.decided c.decided_by c.validated.kind
  unfolding classify_declared
  declared_lem name none tail e other = absurd (ground arith)
  declared_lem name (some entry) tail e other = record {
    declared = entry;
    found = refl;
    not_judged = other;
    from_policy = ground arith;
    same_decision = ground arith;
    same_kind = ground arith;
  }

  -- a program whose checks end in a permission
  builtin_lem :
      (name program : String) (entry : Option PolicyEntry) (tail : List String) (c : Classified)
      → classify texts files workspace cwd name entry tail ≡ ok c
      → name ≡ program
      → mem_text program judged_names ≡ true
      → (classify texts files workspace cwd program entry tail ≡ ok c
          → (c.decided ≡ allow) × (c.decided_by ≡ "builtin"))
      → Judgement name entry c
  unfolding Judgement
  builtin_lem name program entry tail c e same judged run =
      let (allowed, from) =
        run (subst (λ n. classify texts files workspace cwd n entry tail ≡ ok c) same e) in
      inl (record { judged = rw same judged; from_builtin = from; allows_or_asks = inl allowed })

  git_lem :
      (tail : List String) {c : Classified}
      → (validate_git texts files workspace cwd tail
          >>= (λ decision. ok (builtin (git_kind decision) decision tail)))
        ≡ ok c
      → IsBuiltin "git" c.decided c.decided_by
  unfolding mem_text
  git_lem tail {c} e = elim (Result-cases (validate_git texts files workspace cwd tail)) [
    | inr (x, failed) ↦ absurd (ground arith)
    | inl (decision, done) ↦
        let decided : decision ≡ c.decided = ground arith in
        record {
          judged = refl;
          from_builtin = ground arith;
          allows_or_asks = elim (validate_git_lem texts files workspace cwd tail done) [
            | inl allowed ↦ inl (ground (arith, decided, allowed))
            | inr asked ↦ inr (ground (arith, decided, asked), refl)
          ];
        }
  ]

  classify_lem :
      (name : String) (entry : Option PolicyEntry) (tail : List String) {c : Classified}
      → classify texts files workspace cwd name entry tail ≡ ok c
      → Judgement name entry c
  unfolding classify Judgement mem_text
  classify_lem name entry tail {c} e = elim (name_cases name) [
    | inl (inl (inl (inl same))) ↦
        builtin_lem name "python" entry tail c e same refl
          (λ at. (ground (arith, at), ground (arith, at)))
    | inl (inl (inl (inr same))) ↦
        builtin_lem name "pytest" entry tail c e same refl
          (λ at. (ground (arith, at), ground (arith, at)))
    | inl (inl (inr same)) ↦
        builtin_lem name "ruff" entry tail c e same refl
          (λ at. (ground (arith, at), ground (arith, at)))
    | inl (inr (inr same)) ↦
        builtin_lem name "g++" entry tail c e same refl
          (λ at. (ground (arith, at), ground (arith, at)))
    | inl (inr (inl git)) ↦ inl (
        rw git (
          git_lem tail (subst (λ n. classify texts files workspace cwd n entry tail ≡ ok c) git e)))
    | inr tests ↦ inr (declared_lem name entry tail {c = c} (ground (arith, tests)) tests.0)
  ]

timeout_argument_lem :
    (value : Option Json) {n : ℕ} → timeout_argument value ≡ ok n → (1 ≤ n) × (n ≤ 300)
unfolding timeout_argument
timeout_argument_lem none e = ground arith
timeout_argument_lem (some (int (pos n))) e = ground arith
timeout_argument_lem (some (int (negsuc n))) e = absurd (ground arith)
timeout_argument_lem (some null) e = absurd (ground arith)
timeout_argument_lem (some (bool b)) e = absurd (ground arith)
timeout_argument_lem (some (real t)) e = absurd (ground arith)
timeout_argument_lem (some (str t)) e = absurd (ground arith)
timeout_argument_lem (some (arr xs)) e = absurd (ground arith)
timeout_argument_lem (some (obj d)) e = absurd (ground arith)

module _ (texts : Texts) (files : Files) (names : EnvironmentTexts) (machine : Machine) where
  -- A command with an argv that is accepted and holds no secret value of the environment, a bounded
  -- time, a program that may run and a decision of the built-in or the project policy.
  pub record IsPermitted (arguments : Fields) (environ : Dict String)
      (policy : Option CommandPolicy) (p : PreparedCommand) : Type 0 where
    pub argv : List String
    pub root : FilePath
    pub name : String
    pub accepted : validated_argv (get "argv" arguments) ≡ ok argv
    pub bounded :
        (1 ≤ length argv)
        × (length argv ≤ 64)
        × All IsArgument argv
        × (total_characters argv ≤ 32768)
    pub secret_free : contains_secret (sensitive_environment_values names environ) argv ≡ false
    pub at_least : 1 ≤ p.timeout_seconds
    pub at_most : p.timeout_seconds ≤ 300
    pub executable : String
    pub classified : Classified
    pub executed : p.execution_argv ≡ executable ∷ classified.validated.execution_tail
    pub shown : p.display_argv ≡ name ∷ classified.validated.display_tail
    pub checked :
        classify texts files root p.cwd name (entry_of texts policy name) (tail_or_empty argv)
        ≡ ok classified
    pub runnable :
        IsRunnable texts files machine root policy
          (head_or_empty argv)
          (command_environment names environ)
          executable
          name
    pub judged :
        IsBuiltin name p.decision p.decision_source
        ⊎ IsDeclared name (entry_of texts policy name) p.decision p.decision_source p.command_kind

  pub prepare_command-IsPermitted :
      (workspace : FilePath) (arguments : Fields) (environ : Dict String)
      (policy : Option CommandPolicy) {p : PreparedCommand}
      → prepare_command texts files names machine workspace arguments environ policy ≡ ok p
      → IsPermitted arguments environ policy p
  unfolding prepare_command Judgement
  prepare_command-IsPermitted workspace arguments environ policy {p} e =
      let (root, r, e1) =
        bind_ok (or_raise (files.resolve_strict workspace) (path_error os_error)) _ e in
      let (argv, accepted, e2) = bind_ok (validated_argv (get "argv" arguments)) _ e1 in
      let (cwd_value, c, e3) = bind_ok (cwd_argument (get "cwd" arguments)) _ e2 in
      let (timeout, t, e4) = bind_ok (timeout_argument (get "timeout_seconds" arguments)) _ e3 in
      let ((cwd, relative_cwd), d, e5) =
        bind_ok (raise_path (resolve_workspace_path texts files root cwd_value directory)) _ e4 in
      let (u, secrets, e6) =
        bind_ok (raise_if (contains_secret (sensitive_environment_values names environ) argv) _) _
          e5 in
      let ((executable, name), x, e7) =
        bind_ok
          (resolve_executable texts files machine root (head_or_empty argv)
            (command_environment names environ) policy)
          _ e6 in
      let (classified, k, e8) =
        bind_ok
          (classify texts files root cwd name (entry_of texts policy name) (tail_or_empty argv)) _
          e7 in
      let same : record {
        execution_argv = executable ∷ classified.validated.execution_tail;
        display_argv = name ∷ classified.validated.display_tail;
        cwd = cwd;
        relative_cwd = relative_cwd;
        timeout_seconds = timeout;
        command_kind = classified.validated.kind;
        environment = command_environment names environ;
        sensitive_values = sensitive_environment_values names environ;
        decision = classified.decided;
        decision_source = classified.decided_by;
      }
          ≡ p =
        ground (arith, e8) in
      subst (IsPermitted arguments environ policy) same (record {
        argv = argv;
        root = root;
        name = name;
        accepted = accepted;
        bounded = validated_argv_bounds (get "argv" arguments) accepted;
        secret_free = ground (arith, secrets);
        at_least = (timeout_argument_lem (get "timeout_seconds" arguments) t).0;
        at_most = (timeout_argument_lem (get "timeout_seconds" arguments) t).1;
        executable = executable;
        classified = classified;
        executed = refl;
        shown = refl;
        checked = k;
        runnable =
            resolve_executable-IsRunnable texts files machine root (head_or_empty argv)
              (command_environment names environ) policy x;
        judged =
            classify_lem texts files root cwd name (entry_of texts policy name) (tail_or_empty argv)
              k;
      })
