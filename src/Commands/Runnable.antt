-- ===== src/Commands/Runnable.antt =====
-- safety/commands.py: the programs that _resolve_executable gives.
use proofcoder.Base.{
  String, ◌≡◌, refl, ◌⊎◌, true, false, ◌&&◌, ◌||◌, not, Option, none, some, ◌==◌, ◌∷◌, arith, inl,
  inr, Bool-cases, Option-cases, subst,
}
use proofcoder.Base.Dict.{Dict}
use proofcoder.Base.Host.{Texts, Files, FilePath}
use proofcoder.Base.Result.{ok, Result-cases}
use proofcoder.Base.Text.{mem_text, remove_suffix}
use proofcoder.Commands.Executable.{
  Machine, is_declared, named_executable, allowed_path, resolve_gxx_executable, resolve_executable,
  judged_name, is_explicit, explicit_path, which_executable, is_within_workspace,
}
use proofcoder.Commands.Python.{path_text}
use proofcoder.Base.Posix.{parts}
use proofcoder.Paths.{file, joined, resolve_workspace_path}
use proofcoder.Paths.Secrets.{last_part}
use proofcoder.Commands.Tables.{
  blocked_executables, known_executables, gxx_executable_names, python_aliases,
}
use proofcoder.Policy.{CommandPolicy}

module _ (texts : Texts) (files : Files) (machine : Machine) (workspace : FilePath) where
  -- Where the path of a program comes from that was requested.
  pub data HasOrigin (requested : String) (environment : Dict String) (path name : String)
      : Type 0 where
    python_origin :
        path ≡ machine.python_executable
        → name ≡ "python"
        → HasOrigin requested environment path name
    -- g++ of the PATH, which resolves to a file outside the workspace that is no script
    compiler_origin :
        (found start : String) (resolved : FilePath)
        → which_executable texts files machine workspace requested environment ≡ some found
        → files.resolve_strict (parts found) ≡ some resolved
        → is_within_workspace texts files machine workspace resolved ≡ false
        → files.is_file resolved ≡ true
        → (machine.first_two resolved ≡ some start) × ((start == "#!") ≡ false)
        → path ≡ path_text resolved
        → name ≡ "g++"
        → HasOrigin requested environment path name
    -- a file of the workspace, judged by the name of what it resolves to
    explicit_origin :
        (resolved : FilePath) (relative : String)
        → resolve_workspace_path texts files workspace requested file ≡ ok (resolved, relative)
        → path ≡ path_text resolved
        → name ≡ remove_suffix ".exe" (texts.casefold (last_part resolved))
        → HasOrigin requested environment path name
    -- a program of the PATH, judged by the name that was requested
    path_origin :
        (found : String) (resolved : FilePath)
        → is_explicit texts files machine workspace requested ≡ false
        → which_executable texts files machine workspace requested environment ≡ some found
        → files.resolve (joined machine.current found) ≡ some resolved
        → path ≡ path_text resolved
        → name ≡ remove_suffix ".exe" (texts.casefold requested)
        → HasOrigin requested environment path name

  -- A program that may run under this name: not one of the blocked, and python, g++, a known program or
  -- one that the project policy declares; and its path is the one that this name was judged for.
  pub record IsRunnable (policy : Option CommandPolicy) (requested : String)
      (environment : Dict String) (path name : String) : Type 0 where
    pub not_blocked : mem_text name blocked_executables ≡ false
    pub allowed :
        (mem_text name ("python" ∷ "g++" ∷ known_executables) ≡ true)
        ⊎ (is_declared texts files machine workspace policy name ≡ true)
    pub origin : HasOrigin requested environment path name

  -- The requested program, resolved if it was named by its path.
  abbrev Resolved : String → Option FilePath → Type 0
  Resolved requested none = is_explicit texts files machine workspace requested ≡ false
  Resolved requested (some resolved) =
      (relative : String) × (resolve_workspace_path texts files workspace requested file
        ≡ ok (resolved, relative))

  resolve_gxx_executable_lem :
      (requested : String) (environment : Dict String) {path name : String}
      → resolve_gxx_executable texts files machine workspace requested environment ≡ ok path
      → name ≡ "g++"
      → HasOrigin requested environment path name
  unfolding resolve_gxx_executable
  resolve_gxx_executable_lem requested environment {path} e named =
      elim (Option-cases (which_executable texts files machine workspace requested environment)) [
        | inl nothing ↦ absurd (ground arith)
        | inr (found, f) ↦ elim (Option-cases (files.resolve_strict (parts found))) [
          | inl unresolved ↦ absurd (ground arith)
          | inr (resolved, r) ↦ elim (Option-cases (machine.first_two resolved)) [
            | inl unread ↦ absurd (ground arith)
            | inr (start, t) ↦
                compiler_origin found start resolved f r (ground arith) (ground arith)
                  (t, ground arith) (ground arith) named
          ]
        ]
      ]

  allowed_path_lem :
      (requested name : String) (resolved : Option FilePath) (environment : Dict String)
      {path : String}
      → Resolved requested resolved
      → name ≡ remove_suffix ".exe" (judged_name texts files machine workspace requested resolved)
      → allowed_path texts files machine workspace requested resolved name environment ≡ ok path
      → HasOrigin requested environment path name
  unfolding allowed_path judged_name
  allowed_path_lem requested name (some resolved) environment (relative, given) judged e =
      explicit_origin resolved relative given (ground arith) judged
  allowed_path_lem requested name none environment plain judged e =
      elim (Option-cases (which_executable texts files machine workspace requested environment)) [
        | inl nothing ↦ absurd (ground arith)
        | inr (found, f) ↦ elim (Option-cases (files.resolve (joined machine.current found))) [
          | inl unresolved ↦ absurd (ground arith)
          | inr (resolved, r) ↦ path_origin found resolved plain f r (ground arith) judged
        ]
      ]

  other_lem :
      (policy : Option CommandPolicy) (program : String)
      → (not (mem_text program known_executables)
          && not (is_declared texts files machine workspace policy program))
        ≡ false
      → (mem_text program ("python" ∷ "g++" ∷ known_executables) ≡ true)
        ⊎ (is_declared texts files machine workspace policy program ≡ true)
  unfolding mem_text
  other_lem policy program known =
      elim (Bool-cases (is_declared texts files machine workspace policy program)) [
        | inl declared ↦ inr declared
        | inr not_declared ↦ inl (ground (arith, known, not_declared))
      ]

  explicit_path_lem :
      (requested : String) {given : Option FilePath}
      → explicit_path texts files machine workspace requested ≡ ok given
      → (resolved : FilePath) × (given ≡ some resolved)
        × ((relative : String) × (resolve_workspace_path texts files workspace requested file
              ≡ ok (resolved, relative)))
  unfolding explicit_path
  explicit_path_lem requested e =
      elim (Result-cases (resolve_workspace_path texts files workspace requested file)) [
        | inr (x, failed) ↦ absurd (ground arith)
        | inl ((resolved, relative), r) ↦ (resolved, ground arith, (relative, r))
      ]

  named_executable_lem :
      (requested : String) (resolved : Option FilePath) (environment : Dict String)
      (policy : Option CommandPolicy) {path name : String}
      → Resolved requested resolved
      → named_executable texts files machine workspace requested resolved
          (judged_name texts files machine workspace requested resolved)
          environment
          policy
        ≡ ok (path, name)
      → IsRunnable policy requested environment path name
  unfolding named_executable mem_text
  named_executable_lem requested resolved environment policy {path} {name} given e =
      let judged = judged_name texts files machine workspace requested resolved in
      let program = remove_suffix ".exe" judged in
      elim (Bool-cases (machine.is_python_name judged || mem_text judged python_aliases)) [
        | inl python ↦
            let (at, same) : (path ≡ machine.python_executable) × (name ≡ "python") =
              ground arith in
            record {
              not_blocked = rw same refl;
              allowed = inl (rw same refl);
              origin = python_origin at same;
            }
        | inr other ↦ elim (Bool-cases (mem_text program blocked_executables)) [
          | inl refused ↦ absurd (ground arith)
          | inr open_name ↦ elim (Bool-cases (mem_text judged gxx_executable_names)) [
            | inl gxx ↦
                elim (Result-cases
                  (resolve_gxx_executable texts files machine workspace requested environment)) [
                    | inr (x, failed) ↦ absurd (ground arith)
                    | inl (compiler, c) ↦
                        let (at, same) : (compiler ≡ path) × (name ≡ "g++") = ground arith in
                        record {
                          not_blocked = rw same refl;
                          allowed = inl (rw same refl);
                          origin =
                              subst (λ q. HasOrigin requested environment q name) at
                                (resolve_gxx_executable_lem requested environment c same);
                        }
                  ]
            | inr plain ↦
                elim (Result-cases (
                  allowed_path texts files machine workspace requested resolved program
                    environment)) [
                      | inr (x, failed) ↦ absurd (ground arith)
                      | inl (found, c) ↦
                          let (known, at, same) : ((not (mem_text program known_executables)
                                  && not (is_declared texts files machine workspace policy program))
                                ≡ false)
                              × (found ≡ path)
                              × (program ≡ name) =
                            ground arith in
                          subst (λ q. IsRunnable policy requested environment q name) at
                            (subst (λ n. IsRunnable policy requested environment found n) same
                              (record {
                                not_blocked = open_name;
                                allowed = other_lem policy program known;
                                origin =
                                    allowed_path_lem requested program resolved environment given
                                      refl c;
                              }))
                    ]
          ]
        ]
      ]

  pub resolve_executable-IsRunnable :
      (requested : String) (environment : Dict String) (policy : Option CommandPolicy)
      {path name : String}
      → resolve_executable texts files machine workspace requested environment policy
        ≡ ok (path, name)
      → IsRunnable policy requested environment path name
  unfolding resolve_executable
  resolve_executable-IsRunnable requested environment policy {path} {name} e =
      elim (Bool-cases (is_explicit texts files machine workspace requested)) [
        | inr plain ↦
            named_executable_lem requested none environment policy {path = path} {name = name} plain
              (ground (arith, plain))
        | inl explicit ↦
            elim (Result-cases (explicit_path texts files machine workspace requested)) [
              | inr (x, failed) ↦ absurd (ground (arith, explicit))
              | inl (given, r) ↦
                  let (resolved, same, origin) = explicit_path_lem requested r in
                  named_executable_lem requested (some resolved) environment policy {path = path}
                    {name = name} origin (ground (arith, explicit, same))
            ]
      ]
