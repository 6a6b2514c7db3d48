-- ===== src/Tests/Context.antt =====
-- A request's size is its number of messages here, so that a small history exceeds its budget.
use proofcoder.Base.{
  ℕ, ◌+◌, ◌*◌, ◌-◌, ◌<◌, ◌≤◌, String, ◌⁀◌, ◌≡◌, refl, none, some, List, [], ◌∷◌, ◌==◌,
  if◌then◌else◌, length, drop, arith,
}
use proofcoder.Base.Host.{Codec}
use proofcoder.Base.Result.{Result, ok}
use proofcoder.Json.{Json, arr, obj, Items, nil, cons, field}
use proofcoder.Protocol.{Message, system, user, assistant}
use proofcoder.RunState.{RunState, new_state}
use proofcoder.History.{MessageHistory, require_no_pending_results}
use proofcoder.Context.{
  ContextView, ContextManager, ContextError, effective_budget_bytes, target_bytes, view_of, trim,
  build_messages, build,
}
use proofcoder.Context.Groups.{interaction_groups, concat, SinglesThenTurns, interaction_groups_lem}
use proofcoder.Context.Serialize.{deterministic_request_bytes, assemble}
use proofcoder.Context.Tokens.{
  TokenBudget, byte_limit, observe, IsCalibrated, byte_limit_bounds, observe-IsCalibrated,
}
use proofcoder.Context.Bounded.{
  IsConfigured, KeepsNewest, build_messages-KeepsNewest, build_messages_refuses, build-fits,
}
use proofcoder.Tests.History.{loads, reply}

abbrev marks : Items → String
marks nil = ""
marks (cons x xs) = "x" ⁀ marks xs

abbrev dumps : Json → String
dumps (obj (field name (arr xs) rest)) = marks xs
dumps j = "{}"

abbrev bytes : String → ℕ
bytes text =
    if text == "xxx" then 3 else if text == "xxxxx" then 5 else if text == "xxxxxxx" then 7 else 0

abbrev pub codec : Codec
codec = record { loads = loads; dumps_sorted = dumps; dumps = dumps; utf8_length = bytes }

-- At most 4 bytes, cut down to 3, and the newest group always stays.
abbrev small : ContextManager
small = record {
  budget_bytes = 4;
  target_num = 3;
  target_den = 4;
  min_recent_groups = 1;
  token_budget = none;
}

abbrev tiny : ContextManager
tiny = record small { budget_bytes = 2 }

abbrev turn : List Message
turn = assistant (reply []) ∷ user "go on" ∷ []

abbrev later : List Message
later =
    assistant (reply [])
    ∷ user "go on"
    ∷ assistant (reply [])
    ∷ user "go on"
    ∷ assistant (reply [])
    ∷ []

abbrev long : MessageHistory
long = record { messages = system "rules" ∷ user "task" ∷ later; pending = [] }

abbrev state : RunState
state = new_state "task" "run" 0

-- The line opens what building computes with.
built : Result ContextError ContextView
unfolding build build_messages trim view_of interaction_groups effective_budget_bytes target_bytes
    deterministic_request_bytes assemble require_no_pending_results
built = build codec [] state small long

abbrev newest_view : ContextView
newest_view =
    view_of codec [] state (system "rules") (user "task") ((assistant (reply []) ∷ []) ∷ []) 2

built_view : built ≡ ok newest_view
unfolding built
built_view = refl

small-IsConfigured : IsConfigured small
small-IsConfigured = record { budget = omega arith; positive = omega arith; ratio = omega arith }

build_messages-KeepsNewest_example :
    KeepsNewest codec [] state small
      (system "rules")
      (user "task")
      (interaction_groups later)
      0
      newest_view
unfolding built
build_messages-KeepsNewest_example =
    build_messages-KeepsNewest codec [] state small (system "rules") (user "task") later
      small-IsConfigured refl

build_messages_refuses_example :
    (count : ℕ) × (count ≡ length (interaction_groups later) - 1)
    × (2
        < (view_of codec [] state
            (system "rules")
            (user "task")
            (drop count (interaction_groups later))
            count).byte_count)
unfolding built
build_messages_refuses_example =
    build_messages_refuses codec [] state tiny (system "rules") (user "task") later
      "Required messages and newest atomic interaction group exceed context budget." refl

build-fits_example : (newest_view.byte_count ≤ 4) × (4 ≤ 4)
unfolding built
build-fits_example = build-fits codec [] state small long small-IsConfigured refl

three_groups : interaction_groups later ≡ turn ∷ turn ∷ (assistant (reply []) ∷ []) ∷ []
unfolding built
three_groups = refl

interaction_groups_lem_example :
    (concat (interaction_groups later) ≡ later) × SinglesThenTurns (interaction_groups later)
interaction_groups_lem_example = interaction_groups_lem later

abbrev budget : TokenBudget
budget = record { max_tokens = 100; bytes_per_token = record { num = 2; den = 1 } }

budget-IsCalibrated : IsCalibrated budget
budget-IsCalibrated = record { fraction = omega arith; least = omega arith; most = omega arith }

observe-IsCalibrated_example : IsCalibrated (observe 1000 (some 10) budget)
observe-IsCalibrated_example = observe-IsCalibrated 1000 (some 10) budget budget-IsCalibrated

byte_limit_bounds_example :
    (0 < byte_limit budget) × (byte_limit budget ≤ 600) × (100 ≤ 2 * byte_limit budget + 1)
byte_limit_bounds_example = byte_limit_bounds budget budget-IsCalibrated (omega arith)
