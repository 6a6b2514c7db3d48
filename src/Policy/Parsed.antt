-- ===== src/Policy/Parsed.antt =====
-- What a project policy that was parsed can say.
use proofcoder.Base.{
  suc, ◌≤◌, String, ◌≡◌, ◌≢◌, refl, subst, ◌∙◌, Bool, true, false, Option, none, some, List, [],
  ◌∷◌, length, arith, All, inl, inr, Bool-cases,
}
use proofcoder.Base.Host.{Texts}
use proofcoder.Base.Result.{ok, Result-cases}
use proofcoder.Base.Text.{has_prefix, mem_text}
use proofcoder.Json.{Json, null, bool, int, real, str, arr, obj, Items, nil, cons, get}
use proofcoder.Policy.{
  policy_command_kinds, deny, PolicyEntry, items_length, remove_seen, deduplicate, collect_tokens,
  token_list, decision_of, kind_of, parse_entry, parse_entries, parse_declared, parse_document,
}

-- An entry that extends the built-in decision: another name, no refusal, a known kind of command, and
-- options and subcommands that cannot be taken for each other.
pub record Extends (reserved : List String) (e : PolicyEntry) : Type 0 where
  pub other : mem_text e.executable reserved ≡ false
  pub decided : e.decision ≢ deny
  pub known : mem_text e.kind policy_command_kinds ≡ true
  pub options : All (λ o. has_prefix "-" o ≡ true) e.options
  pub subcommands : All (λ o. has_prefix "-" o ≡ false) e.subcommands

-- No executable is declared twice, nor is one of those seen before.
pub AreNew : List String → List PolicyEntry → Type 0
AreNew seen [] = Unit
AreNew seen (e ∷ es) = (mem_text e.executable seen ≡ false) × AreNew (e.executable ∷ seen) es

remove_seen-All :
    (P : String → Type 0) (seen tokens : List String)
    → All P tokens
    → All P (remove_seen seen tokens)
unfolding remove_seen
remove_seen-All P seen [] h = tt
remove_seen-All P seen (t ∷ ts) h = elim (Bool-cases (mem_text t seen)) [
  | inl again ↦ rw again (remove_seen-All P seen ts h.1)
  | inr fresh ↦ rw fresh (h.0, remove_seen-All P (t ∷ seen) ts h.1)
]

module _ (texts : Texts) (strip : String → String) where
  collect_tokens-All :
      (field : String) (option : Bool) (items : Items) {tokens : List String}
      → collect_tokens texts strip field option items ≡ ok tokens
      → All (λ t. has_prefix "-" t ≡ option) tokens
  unfolding collect_tokens
  collect_tokens-All field option nil {tokens} e =
      let nothing : [] ≡ tokens = ground arith in
      subst (All (λ t. has_prefix "-" t ≡ option)) nothing tt
  collect_tokens-All field option (cons (str item) items) {tokens} e =
      elim (Result-cases (collect_tokens texts strip field option items)) [
        | inl (rest, done) ↦
            let whole : item ∷ rest ≡ tokens = ground arith in
            subst (All (λ t. has_prefix "-" t ≡ option)) whole
              (ground arith, collect_tokens-All field option items done)
        | inr (x, failed) ↦ absurd (ground arith)
      ]
  collect_tokens-All field option (cons null items) e = absurd (ground arith)
  collect_tokens-All field option (cons (bool b) items) e = absurd (ground arith)
  collect_tokens-All field option (cons (int n) items) e = absurd (ground arith)
  collect_tokens-All field option (cons (real t) items) e = absurd (ground arith)
  collect_tokens-All field option (cons (arr xs) items) e = absurd (ground arith)
  collect_tokens-All field option (cons (obj d) items) e = absurd (ground arith)

  token_list-All :
      (field : String) (option : Bool) (value : Option Json) {tokens : List String}
      → token_list texts strip field option value ≡ ok tokens
      → All (λ t. has_prefix "-" t ≡ option) tokens
  unfolding token_list deduplicate
  token_list-All field option none {tokens} e =
      let nothing : [] ≡ tokens = ground arith in
      subst (All (λ t. has_prefix "-" t ≡ option)) nothing tt
  token_list-All field option (some (arr items)) {tokens} e =
      elim (Result-cases (collect_tokens texts strip field option items)) [
        | inl (collected, done) ↦
            let whole : remove_seen [] collected ≡ tokens = ground arith in
            subst (All (λ t. has_prefix "-" t ≡ option)) whole (
              remove_seen-All (λ t. has_prefix "-" t ≡ option) [] collected
                (collect_tokens-All field option items done))
        | inr (x, failed) ↦ absurd (ground arith)
      ]
  token_list-All field option (some null) e = absurd (ground arith)
  token_list-All field option (some (bool b)) e = absurd (ground arith)
  token_list-All field option (some (int n)) e = absurd (ground arith)
  token_list-All field option (some (real t)) e = absurd (ground arith)
  token_list-All field option (some (str s)) e = absurd (ground arith)
  token_list-All field option (some (obj d)) e = absurd (ground arith)

  decision_of_lem : (value : Option Json) → decision_of texts strip value ≢ ok deny
  unfolding decision_of
  decision_of_lem none e = absurd (ground arith)
  decision_of_lem (some (str s)) e = absurd (ground arith)
  decision_of_lem (some (arr items)) e = absurd (ground arith)
  decision_of_lem (some (obj d)) e = absurd (ground arith)
  decision_of_lem (some null) e = absurd (ground arith)
  decision_of_lem (some (bool b)) e = absurd (ground arith)
  decision_of_lem (some (int n)) e = absurd (ground arith)
  decision_of_lem (some (real t)) e = absurd (ground arith)

  kind_of_lem :
      (value : Option Json) {kind : String}
      → kind_of texts strip value ≡ ok kind
      → mem_text kind policy_command_kinds ≡ true
  unfolding kind_of
  kind_of_lem none e = absurd (ground arith)
  kind_of_lem (some (str s)) {kind} e = elim (Bool-cases (mem_text s policy_command_kinds)) [
    | inl known ↦
        let same : s ≡ kind = ground arith in
        subst (λ k. mem_text k policy_command_kinds ≡ true) same known
    | inr unknown ↦ absurd (ground arith)
  ]
  kind_of_lem (some (arr items)) e = absurd (ground arith)
  kind_of_lem (some (obj d)) e = absurd (ground arith)
  kind_of_lem (some null) e = absurd (ground arith)
  kind_of_lem (some (bool b)) e = absurd (ground arith)
  kind_of_lem (some (int n)) e = absurd (ground arith)
  kind_of_lem (some (real t)) e = absurd (ground arith)

  parse_entry-Extends :
      (reserved : List String) (value : Json) {e : PolicyEntry}
      → parse_entry texts strip reserved value ≡ ok e
      → Extends reserved e
  unfolding parse_entry
  parse_entry-Extends reserved (obj value) {e} parsed =
      let facts : (mem_text e.executable reserved ≡ false)
          × (decision_of texts strip (get "decision" value) ≡ ok e.decision)
          × (kind_of texts strip (get "kind" value) ≡ ok e.kind)
          × (token_list texts strip "subcommands" false (get "subcommands" value)
              ≡ ok e.subcommands)
          × (token_list texts strip "options" true (get "options" value) ≡ ok e.options) =
        ground arith in
      record {
        other = facts.0;
        decided = λ d. decision_of_lem (get "decision" value) (facts.1 ∙ rw d refl);
        known = kind_of_lem (get "kind" value) facts.2;
        options = token_list-All "options" true (get "options" value) facts.4;
        subcommands = token_list-All "subcommands" false (get "subcommands" value) facts.3;
      }
  parse_entry-Extends reserved null e = absurd (ground arith)
  parse_entry-Extends reserved (bool b) e = absurd (ground arith)
  parse_entry-Extends reserved (int n) e = absurd (ground arith)
  parse_entry-Extends reserved (real t) e = absurd (ground arith)
  parse_entry-Extends reserved (str t) e = absurd (ground arith)
  parse_entry-Extends reserved (arr xs) e = absurd (ground arith)

  parse_entries_lem :
      (reserved seen : List String) (items : Items) {entries : List PolicyEntry}
      → parse_entries texts strip reserved seen items ≡ ok entries
      → All (Extends reserved) entries × AreNew seen entries × (length entries ≡ items_length items)
  unfolding parse_entries items_length AreNew
  parse_entries_lem reserved seen nil {entries} e =
      let nothing : [] ≡ entries = ground arith in
      subst (λ es. All (Extends reserved) es × AreNew seen es × (length es ≡ 0)) nothing
        (tt, tt, refl)
  parse_entries_lem reserved seen (cons item items) {entries} e =
      elim (Result-cases (parse_entry texts strip reserved item)) [
        | inr (x, failed) ↦ absurd (ground arith)
        | inl (entry, done) ↦
            elim (Result-cases
              (parse_entries texts strip reserved (entry.executable ∷ seen) items)) [
                | inr (x, failed) ↦ absurd (ground arith)
                | inl (rest, more) ↦
                    let facts : (mem_text entry.executable seen ≡ false)
                        × (entry ∷ rest ≡ entries) =
                      ground arith in
                    let (extends, new, count) =
                      parse_entries_lem reserved (entry.executable ∷ seen) items more in
                    subst
                      (λ es.
                        All (Extends reserved) es
                        × AreNew seen es
                        × (length es ≡ suc (items_length items)))
                      facts.1
                      (
                        (parse_entry-Extends reserved item done, extends),
                        (facts.0, new),
                        omega (arith, count),
                      )
              ]
      ]

  parse_declared_lem :
      (reserved : List String) (declared : Option Json) {entries : List PolicyEntry}
      → parse_declared texts strip reserved declared ≡ ok entries
      → All (Extends reserved) entries
        × AreNew [] entries
        × (1 ≤ length entries)
        × (length entries ≤ 32)
  unfolding parse_declared items_length
  parse_declared_lem reserved (some (arr (cons item items))) {entries} e =
      let (extends, new, count) =
        parse_entries_lem reserved [] (cons item items) {entries = entries} (ground arith) in
      (extends, new, ground (arith, count), ground (arith, count))
  parse_declared_lem reserved none e = absurd (ground arith)
  parse_declared_lem reserved (some null) e = absurd (ground arith)
  parse_declared_lem reserved (some (bool b)) e = absurd (ground arith)
  parse_declared_lem reserved (some (int n)) e = absurd (ground arith)
  parse_declared_lem reserved (some (real t)) e = absurd (ground arith)
  parse_declared_lem reserved (some (str t)) e = absurd (ground arith)
  parse_declared_lem reserved (some (arr nil)) e = absurd (ground arith)
  parse_declared_lem reserved (some (obj d)) e = absurd (ground arith)

  -- Every policy that is parsed has from 1 to 32 entries with different executables, and each only
  -- extends the built-in decision: its executable is not a reserved one, it allows or asks and never
  -- denies, its kind is one of the four known, its options start with a dash and its subcommands
  -- do not.
  pub parse_document-Extends :
      (reserved : List String) (document : Json) {entries : List PolicyEntry}
      → parse_document texts strip reserved document ≡ ok entries
      → All (Extends reserved) entries
        × AreNew [] entries
        × (1 ≤ length entries)
        × (length entries ≤ 32)
  unfolding parse_document
  parse_document-Extends reserved (obj document) e =
      parse_declared_lem reserved (get "command" document) (ground arith)
  parse_document-Extends reserved null e = absurd (ground arith)
  parse_document-Extends reserved (bool b) e = absurd (ground arith)
  parse_document-Extends reserved (int n) e = absurd (ground arith)
  parse_document-Extends reserved (real t) e = absurd (ground arith)
  parse_document-Extends reserved (str t) e = absurd (ground arith)
  parse_document-Extends reserved (arr xs) e = absurd (ground arith)
