-- ===== src/Tests/Paths.antt =====
-- A workspace /w that holds one file, a.py, in a file system without links.
use proofcoder.Base.{
  arith, subst, inl, inr, Bool-cases, String, ◌≡◌, refl, Bool, true, false, ◌||◌, ◌++◌,
  if◌then◌else◌, some, [], ◌∷◌, ◌==◌,
}
use proofcoder.Base.Host.{Texts, Files, FilePath}
use proofcoder.Base.Posix.{parts, is_absolute, join_parts}
use proofcoder.Base.Result.{Result, ok, err}
use proofcoder.Base.Text.{mem_text, to_slashes, has_prefix}
use proofcoder.Paths.{
  PathError, file, sensitive, outside, workspace_error, is_other_kind, resolve_workspace_path,
  resolve_workspace_new_file, resolve_workspace_new_directory, resolve_workspace_existing_path,
  resolve_workspace_argument_path, is_absolute_or_drive_qualified, is_internal_runtime_path,
  is_within, relative_to, joined, joined_parent, child,
}
use proofcoder.Paths.Secrets.{
  is_sensitive_filename, is_sensitive_path, is_command_policy_path, suffix, last_part,
}
use proofcoder.Paths.Contained.{
  ResolvesDots, mem_text-append, IsGranted, IsResolved, IsChild, resolve_workspace_path-IsGranted,
  resolve_workspace_new_file-IsGranted, resolve_workspace_existing_path-IsGranted,
  resolve_workspace_argument_path-IsGranted,
}

abbrev pub texts : Texts
texts = record { has_drive = λ s. false; casefold = λ s. s; is_blank = λ s. s == "" }

abbrev pub parent_of : FilePath → FilePath
parent_of [] = []
parent_of (c ∷ []) = []
parent_of (c ∷ d ∷ cs) = c ∷ parent_of (d ∷ cs)

-- `..` goes up one component
abbrev pub without : FilePath → FilePath → FilePath
without before [] = before
without before (c ∷ cs) =
    let deeper = without (before ++ c ∷ []) cs in
    if c == ".." then without (parent_of before) cs else deeper

abbrev is_path : FilePath → String → Bool
is_path path name = join_parts path == name

abbrev pub files : Files
files = record {
  resolve = λ p. some (without [] p);
  resolve_strict = λ p. some (without [] p);
  exists = λ p. is_path p "w" || is_path p "w/a.py";
  is_dir = λ p. is_path p "w";
  is_file = λ p. is_path p "w/a.py";
  lexists = λ p. is_path p "w" || is_path p "w/a.py";
}

parent_of_keeps : (p : FilePath) → mem_text ".." p ≡ false → mem_text ".." (parent_of p) ≡ false
unfolding mem_text
parent_of_keeps [] h = h
parent_of_keeps (c ∷ []) h = refl
parent_of_keeps (c ∷ d ∷ cs) h = ground (arith, parent_of_keeps (d ∷ cs) (ground (arith, h)))

pub without_keeps :
    (before p : FilePath) → mem_text ".." before ≡ false → mem_text ".." (without before p) ≡ false
unfolding mem_text
without_keeps before [] h = h
without_keeps before (c ∷ cs) h = elim (Bool-cases (c == "..")) [
  | inl up ↦ rw up (without_keeps (parent_of before) cs (parent_of_keeps before h))
  | inr other ↦ rw other (
      without_keeps (before ++ c ∷ []) cs
        (ground (arith, h, other, mem_text-append ".." before (c ∷ []))))
]

pub files-ResolvesDots : ResolvesDots files
unfolding mem_text
files-ResolvesDots p q e =
    let same : without [] p ≡ q = ground arith in
    subst (λ r. mem_text ".." r ≡ false) same (without_keeps [] p refl)

abbrev pub w : FilePath
w = "w" ∷ []

-- The line opens what the resolvers compute with.
granted_file : Result PathError (FilePath × String)
unfolding resolve_workspace_path resolve_workspace_new_file resolve_workspace_new_directory
    resolve_workspace_existing_path resolve_workspace_argument_path is_absolute_or_drive_qualified
    is_internal_runtime_path is_within relative_to joined joined_parent child is_sensitive_filename
    is_sensitive_path is_command_policy_path suffix last_part parts is_absolute join_parts mem_text
    to_slashes has_prefix
granted_file = resolve_workspace_path texts files w "a.py" file

granted : granted_file ≡ ok ("w" ∷ "a.py" ∷ [], "a.py")
unfolding granted_file
granted = refl

-- Leaving the workspace, a credential and the runtime directory are refused.
refused :
    (resolve_workspace_path texts files w "sub/../../etc" file
      ≡ err (outside "resolved path leaves the selected workspace"))
    × (resolve_workspace_path texts files w "keys/.env" file ≡ err sensitive)
    × (resolve_workspace_path texts files w ".proofcoder/x" file ≡ err sensitive)
    × (resolve_workspace_new_file texts files w "proofcoder.toml"
        ≡ err (
            workspace_error "POLICY_PATH_BLOCKED"
              "writing a project command policy file is blocked"))
unfolding granted_file
refused = (refl, refl, refl, refl)

resolve_workspace_path-IsGranted_example :
    IsGranted texts files w ("w" ∷ "a.py" ∷ []) "a.py"
    × ((root : FilePath) × (files.resolve_strict w ≡ some root)
        × IsResolved texts files w root "a.py" ("w" ∷ "a.py" ∷ []))
    × (is_sensitive_path texts (to_slashes "a.py") ≡ false)
    × (files.exists ("w" ∷ "a.py" ∷ []) ≡ true)
    × (is_other_kind texts files file ("w" ∷ "a.py" ∷ []) ≡ false)
unfolding granted_file
resolve_workspace_path-IsGranted_example =
    resolve_workspace_path-IsGranted texts files files-ResolvesDots w "a.py" file refl

resolve_workspace_new_file-IsGranted_example :
    IsGranted texts files w ("w" ∷ "b.py" ∷ []) "b.py"
    × IsChild texts files w "b.py" ("w" ∷ "b.py" ∷ [])
    × (is_command_policy_path texts "b.py" ≡ false)
    × (files.lexists ("w" ∷ "b.py" ∷ []) ≡ false)
unfolding granted_file
resolve_workspace_new_file-IsGranted_example =
    resolve_workspace_new_file-IsGranted texts files files-ResolvesDots w "b.py" refl

resolve_workspace_existing_path-IsGranted_example :
    IsGranted texts files w ("w" ∷ "a.py" ∷ []) "a.py"
    × IsChild texts files w "a.py" ("w" ∷ "a.py" ∷ [])
    × (is_command_policy_path texts "a.py" ≡ false)
    × (files.lexists ("w" ∷ "a.py" ∷ []) ≡ true)
    × (mem_text (last_part (parts (to_slashes "a.py"))) ("" ∷ "." ∷ ".." ∷ []) ≡ false)
unfolding granted_file
resolve_workspace_existing_path-IsGranted_example =
    resolve_workspace_existing_path-IsGranted texts files files-ResolvesDots w "a.py" refl

resolve_workspace_argument_path-IsGranted_example :
    IsGranted texts files w ("w" ∷ "new.py" ∷ []) "new.py"
    × IsResolved texts files w w "new.py" ("w" ∷ "new.py" ∷ [])
unfolding granted_file
resolve_workspace_argument_path-IsGranted_example =
    resolve_workspace_argument_path-IsGranted texts files files-ResolvesDots w w "new.py" refl
