-- ===== src/Commands/Compiled.antt =====
-- safety/commands.py: g++ commands that are accepted.
use proofcoder.Base.{
  ℕ, suc, String, ◌≡◌, refl, ◌⊎◌, true, false, Option, none, some, is_some, List, [], ◌∷◌, eq_iff,
  arith, inl, inr, Bool-cases, subst,
}
use proofcoder.Base.Host.{Texts, Files, FilePath}
use proofcoder.Base.Result.{ok, Result-cases}
use proofcoder.Base.Text.{mem_text, to_slashes}
use proofcoder.Paths.{joined, resolve_workspace_argument_path}
use proofcoder.Paths.Contained.{
  ResolvesDots, IsGranted, IsResolved, resolve_workspace_argument_path-IsGranted,
}
use proofcoder.Commands.Gxx.{
  GxxArguments, no_arguments, GxxArgument, standard, optimization, output, special, source,
  gxx_argument, note_argument, is_output, read_arguments, item_at, set_item, gxx_path,
  validate_gxx_source, validate_gxx_output, paths_in_place, validate_gxx,
}
use proofcoder.Commands.Options.{same_path}
use proofcoder.Commands.Python.{Validated, path_text}

abbrev pub gxx_flags : List String
gxx_flags = "-std=c++17" ∷ "-O2" ∷ "-o" ∷ []

-- The argument at this place is the source, the output or a flag.
abbrev pub IsRead : GxxArguments → ℕ → String → Type 0
IsRead seen n argument =
    (seen.source_index ≡ some n)
    ⊎ ((seen.output_index ≡ some n) ⊎ (mem_text argument gxx_flags ≡ true))

-- What was noted stays.
abbrev Keeps : GxxArguments → GxxArguments → Type 0
Keeps seen final =
    ((n : ℕ) → seen.source_index ≡ some n → final.source_index ≡ some n)
    × ((n : ℕ) → seen.output_index ≡ some n → final.output_index ≡ some n)

flag_lem :
    (argument : String)
    → is_output (gxx_argument argument) ≡ true
    → mem_text argument gxx_flags ≡ true
unfolding gxx_argument mem_text
flag_lem argument h = ground (arith, eq_iff argument "-o", eq_iff "-o" argument)

note_lem :
    (w : GxxArgument) (argument : String) (index : ℕ) (seen : GxxArguments) {noted : GxxArguments}
    → gxx_argument argument ≡ w
    → note_argument w index seen ≡ ok noted
    → Keeps seen noted
      × IsRead noted index argument
      × (is_output w ≡ true → noted.output_index ≡ some (suc index))
unfolding note_argument gxx_argument mem_text
note_lem standard argument index seen w e = (
  (λ n h. ground (arith, h), λ n h. ground (arith, h)),
  inr (inr (ground (arith, w, eq_iff argument "-std=c++17", eq_iff "-std=c++17" argument))),
  λ h. absurd (cc h),
)
note_lem optimization argument index seen w e = (
  (λ n h. ground (arith, h), λ n h. ground (arith, h)),
  inr (inr (ground (arith, w, eq_iff argument "-O2", eq_iff "-O2" argument))),
  λ h. absurd (cc h),
)
note_lem output argument index seen w e = (
  (λ n h. ground (arith, h), λ n h. ground (arith, h)),
  inr (inr (ground (arith, w, eq_iff argument "-o", eq_iff "-o" argument))),
  λ h. ground arith,
)
note_lem special argument index seen w e = absurd (ground arith)
note_lem source argument index seen w e =
    ((λ n h. ground (arith, h), λ n h. ground (arith, h)), inl (ground arith), λ h. absurd (cc h))

-- Each argument from this place on is the source, the output or a flag.
pub AreRead : GxxArguments → ℕ → List String → Type 0
AreRead seen index [] = Unit
AreRead seen index (argument ∷ arguments) =
    IsRead seen index argument × AreRead seen (suc index) arguments

Keeps-IsRead :
    (seen final : GxxArguments) (index : ℕ) (argument : String)
    → Keeps seen final
    → IsRead seen index argument
    → IsRead final index argument
Keeps-IsRead seen final index argument k (inl h) = inl (k.0 index h)
Keeps-IsRead seen final index argument k (inr (inl h)) = inr (inl (k.1 index h))
Keeps-IsRead seen final index argument k (inr (inr h)) = inr (inr h)

Keeps-trans : (a b c : GxxArguments) → Keeps a b → Keeps b c → Keeps a c
Keeps-trans a b c ab bc = (λ n h. bc.0 n (ab.0 n h), λ n h. bc.1 n (ab.1 n h))

read_lem :
    (index : ℕ) (seen : GxxArguments) (arguments : List String) {final : GxxArguments}
    → read_arguments index seen arguments ≡ ok final
    → Keeps seen final × AreRead final index arguments
unfolding read_arguments AreRead
read_lem index seen [] {final} e =
    let same : seen ≡ final = ground arith in (subst (Keeps seen) same (λ n h. h, λ n h. h), tt)
read_lem index seen (argument ∷ []) {final} e =
    let noting : note_argument (gxx_argument argument) index seen ≡ ok final = ground arith in
    let (keeps, this, behind) = note_lem (gxx_argument argument) argument index seen refl noting in
    (keeps, (this, tt))
read_lem index seen (argument ∷ next ∷ rest) {final} e =
    elim (Result-cases (note_argument (gxx_argument argument) index seen)) [
      | inr (x, failed) ↦ absurd (ground arith)
      | inl (noted, noting) ↦
          let (keeps, this, behind) =
            note_lem (gxx_argument argument) argument index seen refl noting in
          elim (Bool-cases (is_output (gxx_argument argument))) [
            | inl takes ↦
                let (more, others) =
                  read_lem (suc (suc index)) noted rest {final = final} (ground (arith, takes)) in
                (
                  Keeps-trans seen noted final keeps more,
                  (
                    Keeps-IsRead noted final index argument more this,
                    (inr (inl (more.1 (suc index) (behind takes))), others),
                  ),
                )
            | inr alone ↦
                let (more, others) =
                  read_lem (suc index) noted (next ∷ rest) {final = final}
                    (ground (arith, alone)) in
                (
                  Keeps-trans seen noted final keeps more,
                  (Keeps-IsRead noted final index argument more this, others),
                )
          ]
    ]

module _ (texts : Texts) (files : Files) (workspace cwd : FilePath) where
  -- A compilation: the places of the source and the output among the arguments, what they name, and the
  -- arguments as they are executed and shown.
  pub record IsCompilation (arguments : List String) (v : Validated) : Type 0 where
    pub seen : GxxArguments
    pub source_at : ℕ
    pub output_at : ℕ
    pub source_path : FilePath
    pub output_path : FilePath
    pub source_name : String
    pub output_name : String
    pub noted_source : seen.source_index ≡ some source_at
    pub noted_output : seen.output_index ≡ some output_at
    pub standard_set : is_some seen.standard_index ≡ true
    pub read : AreRead seen 0 arguments
    pub source_granted : IsGranted texts files workspace source_path source_name
    pub output_granted : IsGranted texts files workspace output_path output_name
    pub source_resolved :
        IsResolved texts files workspace cwd (item_at source_at arguments) source_path
    pub output_resolved :
        IsResolved texts files workspace cwd (item_at output_at arguments) output_path
    pub source_is_file : files.is_file source_path ≡ true
    pub different : same_path output_path source_path ≡ false
    pub new_output : files.lexists (joined cwd (to_slashes (item_at output_at arguments))) ≡ false
    pub build_kind : v.kind ≡ "build"
    pub executed :
        v.execution_tail
        ≡ set_item output_at
            (path_text output_path)
            (set_item source_at (path_text source_path) arguments)
    pub shown :
        v.display_tail ≡ set_item output_at output_name (set_item source_at source_name arguments)

  source_lem :
      ResolvesDots files
      → (value : String) {path : FilePath} {name : String}
      → validate_gxx_source texts files workspace cwd value ≡ ok (path, name)
      → (IsGranted texts files workspace path name
          × IsResolved texts files workspace cwd value path)
        × (files.is_file path ≡ true)
  unfolding validate_gxx_source gxx_path
  source_lem dots value {path} {name} e =
      elim (Result-cases (resolve_workspace_argument_path texts files workspace cwd value)) [
        | inl ((p, r), found) ↦
            let facts : (resolve_workspace_argument_path texts files workspace cwd value
                  ≡ ok (path, name))
                × (files.is_file path ≡ true) =
              ground arith in
            (
              resolve_workspace_argument_path-IsGranted texts files dots workspace cwd value
                  facts.0,
              facts.1,
            )
        | inr (x, failed) ↦ absurd (ground arith)
      ]

  output_lem :
      ResolvesDots files
      → (value : String) (source_path : FilePath) {path : FilePath} {name : String}
      → validate_gxx_output texts files workspace cwd value source_path ≡ ok (path, name)
      → (IsGranted texts files workspace path name
          × IsResolved texts files workspace cwd value path)
        × (files.lexists (joined cwd (to_slashes value)) ≡ false)
        × (same_path path source_path ≡ false)
  unfolding validate_gxx_output gxx_path
  output_lem dots value source_path {path} {name} e =
      elim (Result-cases (resolve_workspace_argument_path texts files workspace cwd value)) [
        | inl ((p, r), found) ↦
            let facts : (resolve_workspace_argument_path texts files workspace cwd value
                  ≡ ok (path, name))
                × (files.lexists (joined cwd (to_slashes value)) ≡ false)
                × (same_path path source_path ≡ false) =
              ground arith in
            (
              resolve_workspace_argument_path-IsGranted texts files dots workspace cwd value
                  facts.0,
              facts.1,
              facts.2,
            )
        | inr (x, failed) ↦ absurd (ground arith)
      ]

  paths_in_place_lem :
      ResolvesDots files
      → (arguments : List String) (seen : GxxArguments) (s o n : Option ℕ) {v : Validated}
      → seen.standard_index ≡ s
      → seen.output_index ≡ o
      → seen.source_index ≡ n
      → AreRead seen 0 arguments
      → paths_in_place texts files workspace cwd arguments s o n ≡ ok v
      → IsCompilation arguments v
  unfolding paths_in_place
  paths_in_place_lem dots arguments seen none o n ss oo nn r e = absurd (ground arith)
  paths_in_place_lem dots arguments seen (some s) none n ss oo nn r e = absurd (ground arith)
  paths_in_place_lem dots arguments seen (some s) (some o) none ss oo nn r e = absurd (ground arith)
  paths_in_place_lem dots arguments seen (some s) (some o) (some n) {v} ss oo nn r e =
      elim (Result-cases (validate_gxx_source texts files workspace cwd (item_at n arguments))) [
        | inr (x, failed) ↦ absurd (ground arith)
        | inl ((from, from_name), first) ↦
            elim (Result-cases
              (validate_gxx_output texts files workspace cwd (item_at o arguments) from)) [
                | inr (x, failed) ↦ absurd (ground arith)
                | inl ((to, to_name), second) ↦
                    let (from_granted, is_file) = source_lem dots (item_at n arguments) first in
                    let (to_granted, new, other) =
                      output_lem dots (item_at o arguments) from second in
                    record {
                      seen = seen;
                      source_at = n;
                      output_at = o;
                      source_path = from;
                      output_path = to;
                      source_name = from_name;
                      output_name = to_name;
                      noted_source = nn;
                      noted_output = oo;
                      standard_set = rw ss refl;
                      read = r;
                      source_granted = from_granted.0;
                      source_resolved = from_granted.1;
                      output_resolved = to_granted.1;
                      output_granted = to_granted.0;
                      source_is_file = is_file;
                      different = other;
                      new_output = new;
                      build_kind = ground arith;
                      executed = ground arith;
                      shown = ground arith;
                    }
              ]
      ]

  -- A g++ command that is accepted has no argument but flags, one source and one output; the command's
  -- directory and these two arguments resolve to paths that lie in the workspace and are neither sensitive nor internal, the source is a file, nothing stands at the output's
  -- place and the output is not the source; and the arguments are run with the resolved paths and shown
  -- with the relative ones in the places of these two, the others as they were given.
  pub validate_gxx-IsCompilation :
      ResolvesDots files
      → (arguments : List String) {v : Validated}
      → validate_gxx texts files workspace cwd arguments ≡ ok v
      → IsCompilation arguments v
  unfolding validate_gxx
  validate_gxx-IsCompilation dots arguments {v} e =
      elim (Result-cases (read_arguments 0 no_arguments arguments)) [
        | inr (x, failed) ↦ absurd (ground arith)
        | inl (seen, reading) ↦
            paths_in_place_lem dots arguments seen seen.standard_index seen.output_index
              seen.source_index refl refl refl (read_lem 0 no_arguments arguments reading).1
              (ground arith)
      ]
