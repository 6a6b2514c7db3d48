-- ===== src/Commands/Undenied.antt =====
-- safety/commands.py and safety/policy.py together: prepare_command under a parsed policy.
use proofcoder.Base.{
  String, ◌≡◌, ◌≢◌, ◌∙◌, sym, some, List, [], ◌∷◌, ◌==◌, arith, inl, inr, Bool-cases, All, subst,
}
use proofcoder.Base.Dict.{Dict}
use proofcoder.Base.Host.{Texts, Files, FilePath}
use proofcoder.Base.Result.{ok}
use proofcoder.Json.{Json, Fields}
use proofcoder.Policy.{deny, PolicyEntry, CommandPolicy, find_entry, entry_for, parse_document}
use proofcoder.Policy.Parsed.{Extends, parse_document-Extends}
use proofcoder.Commands.Environment.{EnvironmentTexts}
use proofcoder.Commands.Executable.{Machine}
use proofcoder.Commands.Prepare.{PreparedCommand, prepare_command, entry_of}
use proofcoder.Commands.Prepared.{prepare_command-IsPermitted}

find_entry-All :
    (P : PolicyEntry → Type 0) (name : String) (entries : List PolicyEntry) {e : PolicyEntry}
    → All P entries
    → find_entry name entries ≡ some e
    → P e
unfolding find_entry
find_entry-All P name [] h f = absurd (ground arith)
find_entry-All P name (entry ∷ entries) {e} h f = elim (Bool-cases (entry.executable == name)) [
  | inl found ↦ let same : entry ≡ e = ground arith in subst P same h.0
  | inr other ↦ find_entry-All P name entries h.1 (ground arith)
]

module _ (texts : Texts) (files : Files) (names : EnvironmentTexts) (machine : Machine)
    (strip : String → String) where
  -- A command that is accepted under a policy parsed from a document is never denied by its decision,
  -- whoever decides: it is allowed, or someone is asked.
  pub prepare_command-parse_document :
      (reserved : List String) (document : Json) (workspace : FilePath) (arguments : Fields)
      (environ : Dict String) (policy : CommandPolicy) {p : PreparedCommand}
      → parse_document texts strip reserved document ≡ ok policy.entries
      → prepare_command texts files names machine workspace arguments environ (some policy) ≡ ok p
      → p.decision ≢ deny
  unfolding entry_of entry_for
  prepare_command-parse_document reserved document workspace arguments environ policy {p} parsed e
        denied =
      let (extends, new, some_entries, few) =
        parse_document-Extends texts strip reserved document parsed in
      let permitted =
        prepare_command-IsPermitted texts files names machine workspace arguments environ
          (some policy) e in
      elim permitted.judged [
        | inl builtin ↦ elim builtin.allows_or_asks [
          | inl allowed ↦ absurd (cc (allowed, denied))
          | inr asked ↦ absurd (cc (asked.0, denied))
        ]
        | inr declared ↦
            (find_entry-All (Extends reserved) (texts.casefold permitted.name) policy.entries
                extends declared.found).decided
              (sym declared.same_decision ∙ denied)
      ]
