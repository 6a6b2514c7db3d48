-- ===== src/Finish/Request.antt =====
-- tools/finish.py: the validation of a `finish_task` request.
use proofcoder.Base.{
  ℕ, String, ◌⁀◌, Bool, true, false, ◌&&◌, ◌||◌, not, Option, none, some, List, [], ◌∷◌, ◌++◌,
  if◌then◌else◌, ◌==◌, ltb, eqb, suc,
}
use proofcoder.Base.Host.{Texts, Files, FilePath}
use proofcoder.Base.Result.{Result, ok, err, ◌>>=◌, ◌>>◌, raise_if}
use proofcoder.Base.Text.{mem_text, text_length, has_char}
use proofcoder.Json.{Json, null, str, arr, Items, nil, cons, Fields, get}
use proofcoder.Paths.{
  PathError, workspace_error, os_error, value_error, resolve_workspace_argument_path,
}
use proofcoder.ToolResult.{ToolResult, failure}

abbrev pub max_changed_files : ℕ
max_changed_files = 256

abbrev pub max_path_characters : ℕ
max_path_characters = 1024

abbrev pub max_verification_arguments : ℕ
max_verification_arguments = 64

abbrev pub max_verification_argument_characters : ℕ
max_verification_argument_characters = 4096

abbrev pub max_limitations : ℕ
max_limitations = 64

abbrev pub max_limitation_characters : ℕ
max_limitation_characters = 2000

pub record FinishTaskRequest : Type 0 where
  pub summary : String
  pub changed_files : List String
  pub verification_command : Option (List String)
  pub limitations : List String
  pub blocked_reason : Option String

unfoldable pub invalid_arguments : String → ToolResult
invalid_arguments message = failure "INVALID_ARGUMENTS" message true none

-- arguments.get(name, default)
get_or : String → Json → Fields → Json
get_or name default arguments = elim (get name arguments) [ none ↦ default | some value ↦ value ]

items_length : Items → ℕ
items_length nil = 0
items_length (cons x xs) = suc (items_length xs)

module _ (texts : Texts) where
  valid_items : String → ℕ → Items → Result ToolResult (List String)
  valid_items name maximum nil = ok []
  valid_items name maximum (cons (str item) xs) =
      let rest = valid_items name maximum xs in
      if texts.is_blank item || (ltb maximum (text_length item) || has_char 0 item)
      then err (invalid_arguments (name ⁀ " contains an invalid string"))
      else (rest >>= λ parsed. ok (item ∷ parsed))
  valid_items name maximum (cons _ xs) =
      err (invalid_arguments (name ⁀ " contains an invalid string"))

  unfoldable pub validate_string_array :
      Json → String → ℕ → ℕ → Bool → Result ToolResult (List String)
  unfolding valid_items items_length
  validate_string_array (arr items) name maximum_items maximum_characters allow_empty = do
    raise_if (not allow_empty && (eqb (items_length items) 0))
        (invalid_arguments (name ⁀ " must not be empty when provided"))
    raise_if (ltb maximum_items (items_length items))
        (invalid_arguments (name ⁀ " contains too many items"))
    valid_items name maximum_characters items
  validate_string_array _ name maximum_items maximum_characters allow_empty =
      err (invalid_arguments (name ⁀ " must be a string array"))

  valid_summary : Option Json → Result ToolResult String
  valid_summary (some (str s)) =
      if texts.is_blank s
      then err (invalid_arguments "summary must be a non-empty string")
      else ok s
  valid_summary _ = err (invalid_arguments "summary must be a non-empty string")

  valid_verification : Option Json → Result ToolResult (Option (List String))
  valid_verification none = ok none
  valid_verification (some null) = ok none
  valid_verification (some value) = do
    argv ←
        validate_string_array value "verification_command" max_verification_arguments
          max_verification_argument_characters false
    ok (some argv)

  valid_blocked : Option Json → Result ToolResult (Option String)
  valid_blocked none = ok none
  valid_blocked (some null) = ok none
  valid_blocked (some (str s)) =
      if texts.is_blank s
      then err (invalid_arguments "blocked_reason must be a non-empty string or null")
      else ok (some s)
  valid_blocked (some _) =
      err (invalid_arguments "blocked_reason must be a non-empty string or null")

  module _ (files : Files) (workspace : FilePath) where
    path_failure : PathError → ToolResult
    path_failure (workspace_error code message) = failure code message true none
    path_failure os_error = invalid_arguments "changed_files contains an invalid path"
    path_failure value_error = invalid_arguments "changed_files contains an invalid path"

    claimed_relative : String → Result ToolResult String
    claimed_relative claimed =
        elim (resolve_workspace_argument_path texts files workspace workspace claimed) [
          | err e ↦ err (path_failure e)
          | ok (path, relative) ↦
              if relative == "."
              then err (invalid_arguments "changed_files entries must identify files")
              else ok relative
        ]

    -- the loop over the claimed paths, with the normalized ones so far
    unfoldable pub normalize_files : List String → List String → Result ToolResult (List String)
    unfolding claimed_relative path_failure
    normalize_files normalized [] = ok normalized
    normalize_files normalized (claimed ∷ rest) = do
      relative ← claimed_relative claimed
      normalize_files
          (if mem_text relative normalized then normalized else normalized ++ relative ∷ []) rest

    unfoldable pub parse_finish_task_request : Fields → Result ToolResult FinishTaskRequest
    unfolding valid_summary valid_verification valid_blocked get_or
    parse_finish_task_request arguments = do
      summary ← valid_summary (get "summary" arguments)
      changed ←
          validate_string_array (get_or "changed_files" (arr nil) arguments) "changed_files"
            max_changed_files max_path_characters true
      normalized ← normalize_files [] changed
      verification ← valid_verification (get "verification_command" arguments)
      limitations ←
          validate_string_array (get_or "limitations" (arr nil) arguments) "limitations"
            max_limitations max_limitation_characters true
      blocked ← valid_blocked (get "blocked_reason" arguments)
      ok (record {
        summary = summary;
        changed_files = normalized;
        verification_command = verification;
        limitations = limitations;
        blocked_reason = blocked;
      })
