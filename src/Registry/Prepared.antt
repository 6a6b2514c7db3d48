-- ===== src/Registry/Prepared.antt =====
-- ToolRegistry.prepare: what is known of a call that it prepares.
use proofcoder.Base.{
  String, true, Option, none, some, ◌≡◌, refl, sym, subst, inl, inr, arith, ◌==◌, Option-cases,
}
use proofcoder.Base.Dict.{Dict, lookup}
use proofcoder.Base.Result.{Result, ok, Result-cases}
use proofcoder.Json.{Json, null, bool, int, real, str, arr, obj, Fields}
use proofcoder.Protocol.{ToolCall}
use proofcoder.Registry.{
  Raised, ToolDefinition, PreparedToolCall, after_preflight, validated, decoded_call, found_call,
  prepare,
}
use proofcoder.Registry.Schema.{validate_arguments}
use proofcoder.ToolResult.{ToolResult}

-- The preflight of a definition, if it has one, lets the arguments pass.
pub Passes :
    {W : Type 0} → Option (Fields → W → Result Raised (Option ToolResult)) → Fields → W → Type 0
Passes none arguments w = Unit
Passes (some check) arguments w = check arguments w ≡ ok none

pub record IsPrepared {W : Type 0} (loads : String → Option Json)
    (definitions : Dict (ToolDefinition W)) (call : ToolCall) (w : W)
    (prepared : PreparedToolCall W) : Type 0 where
  pub found : lookup call.function.name definitions ≡ some prepared.definition
  pub same : prepared.call ≡ call
  pub kind : (call.type == "function") ≡ true
  pub decoded : Fields
  pub read : loads call.function.arguments ≡ some (obj decoded)
  pub valid : validate_arguments prepared.definition.parameters decoded ≡ ok prepared.arguments
  pub passes : Passes prepared.definition.preflight prepared.arguments w

module _ {W : Type 0} where
  after_preflight-IsChecked :
      (call : ToolCall) (definition : ToolDefinition W) (arguments : Fields)
      (check : Option (Fields → W → Result Raised (Option ToolResult))) (w : W)
      {prepared : PreparedToolCall W}
      → after_preflight call definition arguments check w ≡ ok (inl prepared)
      → (prepared ≡ record { call = call; definition = definition; arguments = arguments })
        × Passes check arguments w
  unfolding after_preflight Passes
  after_preflight-IsChecked call definition arguments none w e = (ground arith, tt)
  after_preflight-IsChecked call definition arguments (some check) w e =
      (ground arith, ground arith)

  -- the arguments and what is known of them, behind the lookup
  Checked : ToolCall → ToolDefinition W → Fields → W → PreparedToolCall W → Type 0
  Checked call definition decoded w prepared =
      (arguments : Fields) × (validate_arguments definition.parameters decoded ≡ ok arguments)
      × (prepared ≡ record { call = call; definition = definition; arguments = arguments })
      × Passes definition.preflight arguments w

  validated-Checked :
      (call : ToolCall) (definition : ToolDefinition W) (decoded : Fields) (w : W)
      {prepared : PreparedToolCall W}
      → validated call definition decoded w ≡ ok (inl prepared)
      → Checked call definition decoded w prepared
  unfolding validated Checked
  validated-Checked call definition decoded w {prepared} e =
      elim (Result-cases (validate_arguments definition.parameters decoded)) [
        | inl (arguments, v) ↦
            let passed : after_preflight call definition arguments definition.preflight w
                ≡ ok (inl prepared) =
              ground arith in
            let (same, passes) =
              after_preflight-IsChecked call definition arguments definition.preflight w passed in
            (arguments, v, same, passes)
        | inr (refusal, v) ↦ absurd (ground arith)
      ]

  decoded_call-Checked :
      (call : ToolCall) (definition : ToolDefinition W) (value : Option Json) (w : W)
      {prepared : PreparedToolCall W}
      → decoded_call call definition value w ≡ ok (inl prepared)
      → (decoded : Fields) × (value ≡ some (obj decoded))
        × Checked call definition decoded w prepared
  unfolding decoded_call
  decoded_call-Checked call definition (some (obj decoded)) w e =
      (decoded, refl, validated-Checked call definition decoded w e)
  decoded_call-Checked call definition none w e = absurd (ground arith)
  decoded_call-Checked call definition (some null) w e = absurd (ground arith)
  decoded_call-Checked call definition (some (bool b)) w e = absurd (ground arith)
  decoded_call-Checked call definition (some (int n)) w e = absurd (ground arith)
  decoded_call-Checked call definition (some (real t)) w e = absurd (ground arith)
  decoded_call-Checked call definition (some (str t)) w e = absurd (ground arith)
  decoded_call-Checked call definition (some (arr xs)) w e = absurd (ground arith)

  -- A prepared call is the given one, a function call of a registered tool, with the registered
  -- definition; its arguments are those of a JSON object that the tool's schema accepted, with the
  -- defaults, and the tool's preflight let them pass.
  pub prepare-IsPrepared :
      (loads : String → Option Json) (definitions : Dict (ToolDefinition W)) (call : ToolCall)
      (w : W) {prepared : PreparedToolCall W}
      → prepare loads definitions call w ≡ ok (inl prepared)
      → IsPrepared loads definitions call w prepared
  unfolding prepare found_call Checked
  prepare-IsPrepared loads definitions call w {prepared} e =
      elim (Option-cases (lookup call.function.name definitions)) [
        | inl missing ↦ absurd (ground arith)
        | inr (definition, found) ↦
            let facts : ((call.type == "function") ≡ true)
                × (decoded_call call definition (loads call.function.arguments) w
                    ≡ ok (inl prepared)) =
              ground arith in
            let (decoded, read, (arguments, valid, same, passes)) =
              decoded_call-Checked call definition (loads call.function.arguments) w facts.1 in
            subst (IsPrepared loads definitions call w) (sym same) (record {
              found = found;
              same = refl;
              kind = facts.0;
              decoded = decoded;
              read = read;
              valid = valid;
              passes = passes;
            })
      ]
