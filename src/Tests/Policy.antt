-- ===== src/Tests/Policy.antt =====
-- A policy that declares make, and one whose decision is a list.
use proofcoder.Base.{◌≤◌, String, ◌≡◌, refl, List, [], ◌∷◌, length, All}
use proofcoder.Base.Int.{pos}
use proofcoder.Base.Posix.{parts}
use proofcoder.Base.Result.{Result, ok}
use proofcoder.Base.Text.{text_length, has_prefix, has_char, mem_text}
use proofcoder.Json.{Json, int, str, arr, obj, nil, cons, Fields, end, field, get}
use proofcoder.Paths.Secrets.{suffix, last_part}
use proofcoder.Policy.{
  PolicyEntry, PolicyError, confirm, deduplicate, token_list, executable_name, decision_of, kind_of,
  parse_entry, parse_document, items_length,
}
use proofcoder.Policy.Parsed.{Extends, AreNew, parse_document-Extends}
use proofcoder.Registry.Schema.{unknown_names, field_names}
use proofcoder.Tests.Paths.{texts}

abbrev pub bare : String → String
bare s = s

abbrev pub make_table : Fields
make_table = field "executable" (str "make") (
    field "decision" (str "confirm") (
      field "kind" (str "build") (
        field "subcommands" (arr (cons (str "all") nil))
          (field "options" (arr (cons (str "-j") nil)) end))))

abbrev pub document : Json
document =
    obj
      (field "schema_version" (int (pos 1)) (field "command" (arr (cons (obj make_table) nil)) end))

abbrev pub make_entry : PolicyEntry
make_entry = record {
  executable = "make";
  subcommands = "all" ∷ [];
  options = "-j" ∷ [];
  decision = confirm;
  kind = "build";
}

-- The line opens what the parser computes with.
unfoldable pub parsed : Result PolicyError (List PolicyEntry)
unfolding parse_document parse_entry decision_of kind_of executable_name token_list deduplicate
    items_length unknown_names field_names get text_length has_prefix has_char mem_text parts suffix
    last_part
parsed = parse_document texts bare ("git" ∷ []) document

parsed_make : parsed ≡ ok (make_entry ∷ [])
unfolding parsed
parsed_make = refl

parse_document-Extends_example :
    All (Extends ("git" ∷ [])) (make_entry ∷ [])
    × AreNew [] (make_entry ∷ [])
    × (1 ≤ length (make_entry ∷ []))
    × (length (make_entry ∷ []) ≤ 32)
unfolding parsed
parse_document-Extends_example = parse_document-Extends texts bare ("git" ∷ []) document refl
