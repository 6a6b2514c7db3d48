-- ===== src/Commands/Argv.antt =====
-- safety/commands.py: errors, decisions and the checks on the text of an argv.
use proofcoder.Base.{
  ℕ, suc, ◌+◌, ◌*◌, ◌≤◌, String, ◌≡◌, refl, false, Option, none, some, List, [], ◌∷◌, ◌==◌, ltb,
  length, arith, All, subst, inl, inr,
}
use proofcoder.Base.Result.{Result, ok, err, ◌>>=◌, ◌>>◌, raise_if, Result-cases}
use proofcoder.Base.Text.{text_length, has_char}
use proofcoder.Json.{Json, null, bool, int, real, str, arr, obj, Items, nil, cons}
use proofcoder.Paths.{PathError}
use proofcoder.Policy.{items_length}

-- CommandPolicyError(code, message), and the errors of paths that pass through
pub data CommandError : Type 0 where
  policy_error : String → String → CommandError
  path_error : PathError → CommandError

abbrev pub blocked : String → CommandError
blocked message = policy_error "COMMAND_BLOCKED" message

abbrev pub invalid : String → CommandError
invalid message = policy_error "INVALID_ARGUMENTS" message

abbrev pub not_found : String → CommandError
not_found message = policy_error "COMMAND_NOT_FOUND" message

abbrev pub total_characters : List String → ℕ
total_characters [] = 0
total_characters (item ∷ items) = text_length item + total_characters items

collect_argv : Items → Result CommandError (List String)
collect_argv nil = ok []
collect_argv (cons (str item) items) = do
  raise_if (item == "") (invalid "every argv item must be a non-empty string")
  raise_if (has_char 0 item) (invalid "argv items cannot contain NUL")
  raise_if (ltb 4096 (text_length item)) (invalid "each argv item is limited to 4096 characters")
  rest ← collect_argv items
  ok (item ∷ rest)
collect_argv (cons _ items) = err (invalid "every argv item must be a non-empty string")

unfoldable pub validated_argv : Option Json → Result CommandError (List String)
unfolding collect_argv
validated_argv (some (arr nil)) = err (invalid "argv must contain an executable")
validated_argv (some (arr (cons item items))) = do
  raise_if (ltb 64 (items_length (cons item items)))
      (invalid "argv cannot contain more than 64 items")
  argv ← collect_argv (cons item items)
  raise_if (ltb (32 * 1024) (total_characters argv))
      (invalid "combined argv text is limited to 32768 characters")
  ok argv
validated_argv _ = err (invalid "argv must be a non-empty string array")

-- An item of an argv that is accepted.
pub record IsArgument (item : String) : Type 0 where
  pub some_text : (item == "") ≡ false
  pub no_nul : has_char 0 item ≡ false
  pub short : text_length item ≤ 4096

collect_argv_lem :
    (items : Items) {argv : List String}
    → collect_argv items ≡ ok argv
    → All IsArgument argv × (length argv ≡ items_length items)
unfolding collect_argv items_length
collect_argv_lem nil {argv} e =
    let nothing : [] ≡ argv = ground arith in
    subst (λ a. All IsArgument a × (length a ≡ 0)) nothing (tt, refl)
collect_argv_lem (cons (str item) items) {argv} e = elim (Result-cases (collect_argv items)) [
  | inr (x, failed) ↦ absurd (ground arith)
  | inl (rest, done) ↦
      let whole : item ∷ rest ≡ argv = ground arith in
      let (arguments, count) = collect_argv_lem items done in
      subst (λ a. All IsArgument a × (length a ≡ suc (items_length items))) whole
        (
          (
            record { some_text = ground arith; no_nul = ground arith; short = ground arith },
            arguments,
          ),
          omega (arith, count),
        )
]
collect_argv_lem (cons null items) e = absurd (ground arith)
collect_argv_lem (cons (bool b) items) e = absurd (ground arith)
collect_argv_lem (cons (int n) items) e = absurd (ground arith)
collect_argv_lem (cons (real t) items) e = absurd (ground arith)
collect_argv_lem (cons (arr xs) items) e = absurd (ground arith)
collect_argv_lem (cons (obj d) items) e = absurd (ground arith)

-- An argv that is accepted has from 1 to 64 items, none empty, with NUL or longer than 4096 characters,
-- and at most 32768 characters in all.
pub validated_argv_bounds :
    (value : Option Json) {argv : List String}
    → validated_argv value ≡ ok argv
    → (1 ≤ length argv) × (length argv ≤ 64) × All IsArgument argv × (total_characters argv ≤ 32768)
unfolding validated_argv
validated_argv_bounds (some (arr (cons item items))) {argv} e =
    let (arguments, count) = collect_argv_lem (cons item items) {argv = argv} (ground arith) in
    (ground (arith, count), ground (arith, count), arguments, ground arith)
validated_argv_bounds none e = absurd (ground arith)
validated_argv_bounds (some (arr nil)) e = absurd (ground arith)
validated_argv_bounds (some null) e = absurd (ground arith)
validated_argv_bounds (some (bool b)) e = absurd (ground arith)
validated_argv_bounds (some (int n)) e = absurd (ground arith)
validated_argv_bounds (some (real t)) e = absurd (ground arith)
validated_argv_bounds (some (str t)) e = absurd (ground arith)
validated_argv_bounds (some (obj d)) e = absurd (ground arith)
