-- ===== src/Paths/Contained.antt =====
-- safety/paths.py: the paths that the resolvers give.
use proofcoder.Base.{
  String, ◌≡◌, sym, true, false, ◌||◌, some, List, [], ◌∷◌, ◌++◌, ◌==◌, arith, eq_iff, inl, inr,
  Option-cases,
}
use proofcoder.Base.Host.{Texts, Files, FilePath}
use proofcoder.Base.Posix.{parts, join_parts}
use proofcoder.Base.Result.{ok}
use proofcoder.Base.Text.{to_slashes, mem_text}
use proofcoder.Paths.{
  relative_to, is_within, joined, joined_parent, child, Expected, is_other_kind,
  is_internal_runtime_path, resolve_workspace_path, resolve_workspace_new_file,
  resolve_workspace_new_directory, resolve_workspace_existing_path, resolve_workspace_argument_path,
}
use proofcoder.Paths.Secrets.{is_sensitive_path, is_command_policy_path, last_part}

relative_to_lem :
    (root path : FilePath) {rest : FilePath}
    → relative_to root path ≡ some rest
    → path ≡ root ++ rest
unfolding relative_to
relative_to_lem [] path h = ground arith
relative_to_lem (r ∷ rs) [] h = cc
relative_to_lem (r ∷ rs) (c ∷ cs) {rest} h =
    ground (arith, eq_iff r c, relative_to_lem rs cs {rest = rest})

-- What pathlib documents of resolve: no component of its result is `..`.
abbrev pub ResolvesDots : Files → Type 0
ResolvesDots files = (p q : FilePath) → files.resolve p ≡ some q → mem_text ".." q ≡ false

pub mem_text-append :
    (t : String) (xs ys : List String) → mem_text t (xs ++ ys) ≡ (mem_text t xs || mem_text t ys)
unfolding mem_text
mem_text-append t [] ys = ground arith
mem_text-append t (x ∷ xs) ys = ground (arith, mem_text-append t xs ys)

child_lem :
    (parent : FilePath) (name : String)
    → mem_text ".." parent ≡ false
    → (name == "..") ≡ false
    → mem_text ".." (child parent name) ≡ false
unfolding child mem_text
child_lem parent name clean other = ground (arith, mem_text-append ".." parent (name ∷ []))

module _ (texts : Texts) (files : Files) where
  -- A path below the root and without `..`, with its relative name, that is neither sensitive nor
  -- internal.
  pub record IsGranted (workspace path : FilePath) (relative : String) : Type 0 where
    pub root : FilePath
    pub rest : FilePath
    pub rooted : files.resolve_strict workspace ≡ some root
    pub below : path ≡ root ++ rest
    pub no_dots : mem_text ".." rest ≡ false
    pub named : relative ≡ join_parts rest
    pub open_name : is_sensitive_path texts relative ≡ false
    pub not_internal : is_internal_runtime_path texts files relative ≡ false

  -- The path is what a base and the requested text resolve to, and resolving it again stays within the
  -- root.
  pub record IsResolved (workspace base : FilePath) (requested : String) (path : FilePath)
      : Type 0 where
    pub root : FilePath
    pub rooted : files.resolve_strict workspace ≡ some root
    pub resolved : files.resolve (joined base (to_slashes requested)) ≡ some path
    pub within : is_within texts files root path ≡ true

  -- The path is a child, of the requested name, of what the requested parent resolves to in the root.
  pub record IsChild (workspace : FilePath) (requested : String) (path : FilePath) : Type 0 where
    pub root : FilePath
    pub parent : FilePath
    pub rooted : files.resolve_strict workspace ≡ some root
    pub resolved : files.resolve (joined_parent root (to_slashes requested)) ≡ some parent
    pub within : is_within texts files root parent ≡ true
    pub path_is : path ≡ child parent (last_part (parts (to_slashes requested)))

  granted :
      (workspace root target rest path : FilePath) (relative : String)
      → files.resolve_strict workspace ≡ some root
      → relative_to root target ≡ some rest
      → mem_text ".." target ≡ false
      → (target ≡ path)
        × (relative ≡ join_parts rest)
        × (is_sensitive_path texts relative ≡ false)
        × (is_internal_runtime_path texts files relative ≡ false)
      → IsGranted workspace path relative
  granted workspace root target rest path relative r s clean facts =
      let split : target ≡ root ++ rest = relative_to_lem root target s in
      record {
        root = root;
        rest = rest;
        rooted = r;
        below = rw (← facts.0) split;
        no_dots = ground (arith, clean, split, mem_text-append ".." root rest);
        named = facts.1;
        open_name = facts.2;
        not_internal = facts.3;
      }

  -- A path that is granted to a tool is what the root and the requested text resolve to; where
  -- resolving leaves no `..`, it lies in the workspace, is neither sensitive nor internal, exists and is
  -- of the expected kind.
  pub resolve_workspace_path-IsGranted :
      ResolvesDots files
      → (workspace : FilePath) (requested : String) (expected : Expected) {path : FilePath}
        {relative : String}
      → resolve_workspace_path texts files workspace requested expected ≡ ok (path, relative)
      → IsGranted workspace path relative
        × ((root : FilePath) × (files.resolve_strict workspace ≡ some root)
            × IsResolved workspace root requested path)
        × (is_sensitive_path texts (to_slashes requested) ≡ false)
        × (files.exists path ≡ true)
        × (is_other_kind texts files expected path ≡ false)
  unfolding resolve_workspace_path
  resolve_workspace_path-IsGranted dots workspace requested expected {path} {relative} h =
      elim (Option-cases (files.resolve_strict workspace)) [
        | inl no_root ↦ absurd (ground arith)
        | inr (root, r) ↦ elim (Option-cases (files.resolve (joined root (to_slashes requested)))) [
          | inl unresolved ↦ absurd (ground arith)
          | inr (base, q) ↦ elim (Option-cases (relative_to root base)) [
            | inl away ↦ absurd (ground arith)
            | inr (rest, s) ↦
                let same : base ≡ path = ground arith in
                (
                  granted workspace root base rest path relative r s (dots _ base q) (ground arith),
                  (
                    root,
                    r,
                    record {
                      root = root;
                      rooted = r;
                      resolved = rw (← same) q;
                      within = ground (arith, same);
                    },
                  ),
                  ground arith,
                  ground arith,
                  ground arith,
                )
          ]
        ]
      ]

  -- A new file's target is the requested name in what the requested parent resolves to; where resolving
  -- leaves no `..`, it lies in the workspace, is neither sensitive, internal nor a command policy file, and
  -- nothing stands there.
  pub resolve_workspace_new_file-IsGranted :
      ResolvesDots files
      → (workspace : FilePath) (requested : String) {path : FilePath} {relative : String}
      → resolve_workspace_new_file texts files workspace requested ≡ ok (path, relative)
      → IsGranted workspace path relative
        × IsChild workspace requested path
        × (is_command_policy_path texts relative ≡ false)
        × (files.lexists path ≡ false)
  unfolding resolve_workspace_new_file mem_text
  resolve_workspace_new_file-IsGranted dots workspace requested {path} {relative} h =
      let name = last_part (parts (to_slashes requested)) in
      elim (Option-cases (files.resolve_strict workspace)) [
        | inl no_root ↦ absurd (ground arith)
        | inr (root, r) ↦
            elim (Option-cases (files.resolve (joined_parent root (to_slashes requested)))) [
              | inl unresolved ↦ absurd (ground arith)
              | inr (base, q) ↦ elim (Option-cases (relative_to root (child base name))) [
                | inl away ↦ absurd (ground arith)
                | inr (rest, s) ↦
                    let same : child base name ≡ path = ground arith in
                    let other : (name == "..") ≡ false = ground arith in
                    (
                      granted workspace root (child base name) rest path relative r s
                          (child_lem base name (dots _ base q) other) (ground arith),
                      record {
                        root = root;
                        parent = base;
                        rooted = r;
                        resolved = q;
                        within = ground arith;
                        path_is = sym same;
                      },
                      ground arith,
                      ground arith,
                    )
              ]
            ]
      ]

  -- A new directory's target is the requested name in what the requested parent resolves to; where
  -- resolving leaves no `..`, it lies in the workspace and is neither sensitive, internal nor a command
  -- policy file.
  pub resolve_workspace_new_directory-IsGranted :
      ResolvesDots files
      → (workspace : FilePath) (requested : String) {path : FilePath} {relative : String}
      → resolve_workspace_new_directory texts files workspace requested ≡ ok (path, relative)
      → IsGranted workspace path relative
        × IsChild workspace requested path
        × (is_command_policy_path texts relative ≡ false)
  unfolding resolve_workspace_new_directory mem_text
  resolve_workspace_new_directory-IsGranted dots workspace requested {path} {relative} h =
      let name = last_part (parts (to_slashes requested)) in
      elim (Option-cases (files.resolve_strict workspace)) [
        | inl no_root ↦ absurd (ground arith)
        | inr (root, r) ↦
            elim (Option-cases (files.resolve (joined_parent root (to_slashes requested)))) [
              | inl unresolved ↦ absurd (ground arith)
              | inr (base, q) ↦ elim (Option-cases (relative_to root (child base name))) [
                | inl away ↦ absurd (ground arith)
                | inr (rest, s) ↦
                    let same : child base name ≡ path = ground arith in
                    let other : (name == "..") ≡ false =
                      ground (arith, eq_iff name "..", eq_iff ".." name) in
                    (
                      granted workspace root (child base name) rest path relative r s
                          (child_lem base name (dots _ base q) other) (ground arith),
                      record {
                        root = root;
                        parent = base;
                        rooted = r;
                        resolved = q;
                        within = ground arith;
                        path_is = sym same;
                      },
                      ground arith,
                    )
              ]
            ]
      ]

  -- What may be deleted or moved is the requested name, which is none of "", `.` and `..`, in what the
  -- requested parent resolves to; where resolving leaves no `..`, it lies in the workspace, is neither
  -- sensitive, internal nor a command policy file, and is there.
  pub resolve_workspace_existing_path-IsGranted :
      ResolvesDots files
      → (workspace : FilePath) (requested : String) {path : FilePath} {relative : String}
      → resolve_workspace_existing_path texts files workspace requested ≡ ok (path, relative)
      → IsGranted workspace path relative
        × IsChild workspace requested path
        × (is_command_policy_path texts relative ≡ false)
        × (files.lexists path ≡ true)
        × (mem_text (last_part (parts (to_slashes requested))) ("" ∷ "." ∷ ".." ∷ []) ≡ false)
  unfolding resolve_workspace_existing_path mem_text
  resolve_workspace_existing_path-IsGranted dots workspace requested {path} {relative} h =
      let name = last_part (parts (to_slashes requested)) in
      elim (Option-cases (files.resolve_strict workspace)) [
        | inl no_root ↦ absurd (ground arith)
        | inr (root, r) ↦
            elim (Option-cases (files.resolve (joined_parent root (to_slashes requested)))) [
              | inl unresolved ↦ absurd (ground arith)
              | inr (base, q) ↦ elim (Option-cases (relative_to root (child base name))) [
                | inl away ↦ absurd (ground arith)
                | inr (rest, s) ↦
                    let same : child base name ≡ path = ground arith in
                    let other : (name == "..") ≡ false =
                      ground (arith, eq_iff name "..", eq_iff ".." name) in
                    (
                      granted workspace root (child base name) rest path relative r s
                          (child_lem base name (dots _ base q) other) (ground arith),
                      record {
                        root = root;
                        parent = base;
                        rooted = r;
                        resolved = q;
                        within = ground arith;
                        path_is = sym same;
                      },
                      ground arith,
                      ground arith,
                      ground arith,
                    )
              ]
            ]
      ]

  -- A command's path argument is what the command's directory and the requested text resolve to; where
  -- resolving leaves no `..`, it lies in the workspace and is neither sensitive nor internal.
  pub resolve_workspace_argument_path-IsGranted :
      ResolvesDots files
      → (workspace cwd : FilePath) (requested : String) {path : FilePath} {relative : String}
      → resolve_workspace_argument_path texts files workspace cwd requested ≡ ok (path, relative)
      → IsGranted workspace path relative × IsResolved workspace cwd requested path
  unfolding resolve_workspace_argument_path
  resolve_workspace_argument_path-IsGranted dots workspace cwd requested {path} {relative} h =
      elim (Option-cases (files.resolve_strict workspace)) [
        | inl no_root ↦ absurd (ground arith)
        | inr (root, r) ↦ elim (Option-cases (files.resolve (joined cwd (to_slashes requested)))) [
          | inl unresolved ↦ absurd (ground arith)
          | inr (base, q) ↦ elim (Option-cases (relative_to root base)) [
            | inl away ↦ absurd (ground arith)
            | inr (rest, s) ↦
                let same : base ≡ path = ground arith in
                (
                  granted workspace root base rest path relative r s (dots _ base q) (ground arith),
                  record {
                    root = root;
                    rooted = r;
                    resolved = rw (← same) q;
                    within = ground (arith, same);
                  },
                )
          ]
        ]
      ]
