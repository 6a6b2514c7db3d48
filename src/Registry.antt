-- ===== src/Registry.antt =====
-- tools/registry.py and ToolDefinition of tools/base.py: registration, validation and dispatch. What
-- a tool does is a parameter of its definition, on a world `W` that it may change.
pub mod Schema
pub mod Prepared
use proofcoder.Base.{
  ℕ, String, ◌⁀◌, Bool, true, false, not, Option, none, some, List, [], ◌∷◌, ◌++◌, if◌then◌else◌,
  ◌==◌, ◌⊎◌, inl, inr,
}
use proofcoder.Base.Dict.{Dict, lookup, insert}
use proofcoder.Base.Result.{Result, ok, err}
use proofcoder.Json.{Json, obj, Fields}
use proofcoder.Protocol.{ToolCall}
use proofcoder.ToolResult.{ToolResult, failure}
use Schema.{validate_arguments}

pub data Raised : Type 0 where
  interrupt : Raised
  exception : Raised

pub data RiskLevel : Type 0 where
  read_only write execute_risk : RiskLevel

pub record ToolDefinition (W : Type 0) : Type 0 where
  pub name : String
  pub description : String
  pub parameters : Fields
  pub execute : Fields → W → Result Raised ToolResult × W
  -- a preflight reads the world and does not change it; the inner `none` is a passed check
  pub preflight : Option (Fields → W → Result Raised (Option ToolResult))
  pub modifies_workspace : Bool
  pub risk_level : RiskLevel

pub record PreparedToolCall (W : Type 0) : Type 0 where
  pub call : ToolCall
  pub definition : ToolDefinition W
  pub arguments : Fields

-- ordinary exceptions become a failure, and an interruption passes through
unfoldable pub contained : Result Raised ToolResult → Result Raised ToolResult
contained (ok result) = ok result
contained (err interrupt) = err interrupt
contained (err exception) = ok (
    failure "TOOL_EXECUTION_ERROR" "tool execution failed; inspect arguments and workspace state"
      true none)

module _ {W : Type 0} where
  unfoldable pub register :
      ToolDefinition W → Dict (ToolDefinition W) → Result String (Dict (ToolDefinition W))
  register definition definitions = elim (lookup definition.name definitions) [
    | some old ↦ err ("Tool name is already registered: " ⁀ definition.name)
    | none ↦ ok (insert definition.name definition definitions)
  ]

  after_preflight :
      ToolCall
      → ToolDefinition W
      → Fields
      → Option (Fields → W → Result Raised (Option ToolResult))
      → W
      → Result Raised (PreparedToolCall W ⊎ ToolResult)
  after_preflight call definition arguments none w =
      ok (inl (record { call = call; definition = definition; arguments = arguments }))
  after_preflight call definition arguments (some check) w = elim (check arguments w) [
    | err e ↦ err e
    | ok none ↦ ok (inl (record { call = call; definition = definition; arguments = arguments }))
    | ok (some refusal) ↦ ok (inr refusal)
  ]

  validated :
      ToolCall → ToolDefinition W → Fields → W → Result Raised (PreparedToolCall W ⊎ ToolResult)
  validated call definition decoded w = elim (validate_arguments definition.parameters decoded) [
    | err refusal ↦ ok (inr refusal)
    | ok arguments ↦ after_preflight call definition arguments definition.preflight w
  ]

  decoded_call :
      ToolCall
      → ToolDefinition W
      → Option Json
      → W
      → Result Raised (PreparedToolCall W ⊎ ToolResult)
  decoded_call call definition none w =
      ok (inr (failure "INVALID_JSON" "tool arguments must be valid JSON" true none))
  decoded_call call definition (some (obj decoded)) w = validated call definition decoded w
  decoded_call call definition (some _) w =
      ok (inr (failure "INVALID_ARGUMENTS" "tool arguments must be a JSON object" true none))

  found_call :
      (String → Option Json)
      → ToolCall
      → Option (ToolDefinition W)
      → W
      → Result Raised (PreparedToolCall W ⊎ ToolResult)
  found_call loads call none w = ok (
      inr (
        failure "UNKNOWN_TOOL"
          ("unknown tool '" ⁀ (call.function.name ⁀ "'; use a registered tool name")) true none))
  found_call loads call (some definition) w =
      if not (call.type == "function")
      then ok (inr (failure "INVALID_ARGUMENTS" "tool call type must be 'function'" true none))
      else decoded_call call definition (loads call.function.arguments) w

  -- a prepared call, or the result that refuses it
  unfoldable pub prepare :
      (String → Option Json)
      → Dict (ToolDefinition W)
      → ToolCall
      → W
      → Result Raised (PreparedToolCall W ⊎ ToolResult)
  unfolding found_call decoded_call validated after_preflight
  prepare loads definitions call w = found_call loads call (lookup call.function.name definitions) w

  unfoldable pub execute : PreparedToolCall W → W → Result Raised ToolResult × W
  execute prepared w =
      let (outcome, w') = prepared.definition.execute prepared.arguments w in
      (contained outcome, w')
