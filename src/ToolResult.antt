-- ===== src/ToolResult.antt =====
-- tools/base.py: the result envelope of a tool, and tool definitions.
use proofcoder.Base.{ℕ, String, Bool, true, false, Option, none, some, List, []}
use proofcoder.Json.{Fields}

pub record ToolError : Type 0 where
  pub code : String
  pub message : String
  pub retryable : Bool

pub record ToolMeta : Type 0 where
  pub duration_ms : ℕ
  pub truncated : Bool
  pub warnings : List String

pub record ToolResult : Type 0 where
  pub ok : Bool
  pub contents : Option Fields
  pub error : Option ToolError
  pub meta : ToolMeta

-- ToolMeta()
abbrev pub no_meta : ToolMeta
no_meta = record { duration_ms = 0; truncated = false; warnings = [] }

-- ToolResult.success(data, warnings=warnings)
unfoldable pub success : Fields → List String → ToolResult
success fields warnings = record {
  ok = true;
  contents = some fields;
  error = none;
  meta = record { duration_ms = 0; truncated = false; warnings = warnings };
}

-- ToolResult.failure(code, message, retryable=retryable, data=data)
unfoldable pub failure : String → String → Bool → Option Fields → ToolResult
failure code message retryable contents = record {
  ok = false;
  contents = contents;
  error = some (record { code = code; message = message; retryable = retryable });
  meta = no_meta;
}
