-- ===== src/Errors.antt =====
-- errors.py: the errors of a model request.
use proofcoder.Base.{ℕ, String, Bool, true, false, ◌||◌, Option, none, some, eqb}
use proofcoder.Base.Int.{ℤ}

pub data LlmErrorCategory : Type 0 where
  connection timeout rate_limit server bad_request : LlmErrorCategory
  authentication payment_required unprocessable invalid_response permanent : LlmErrorCategory

-- `retry_after_seconds` is in clock ticks.
pub record LlmRequestError : Type 0 where
  pub message : String
  pub category : LlmErrorCategory
  pub status_code : Option ℕ
  pub retry_after_seconds : Option ℤ
  pub request_id : Option String

unfoldable pub status_is : ℕ → Option ℕ → Bool
status_is code none = false
status_is code (some n) = eqb n code

retryable_category : LlmErrorCategory → Option ℕ → Bool
retryable_category connection status = true
retryable_category timeout status = true
retryable_category rate_limit status = status_is 429 status
retryable_category server status = status_is 500 status || status_is 503 status
retryable_category _ status = false

unfoldable pub retryable : LlmRequestError → Bool
unfolding retryable_category status_is
retryable e = retryable_category e.category e.status_code

-- category.value.upper()
unfoldable pub category_text : LlmErrorCategory → String
category_text connection = "CONNECTION"
category_text timeout = "TIMEOUT"
category_text rate_limit = "RATE_LIMIT"
category_text server = "SERVER"
category_text bad_request = "BAD_REQUEST"
category_text authentication = "AUTHENTICATION"
category_text payment_required = "PAYMENT_REQUIRED"
category_text unprocessable = "UNPROCESSABLE"
category_text invalid_response = "INVALID_RESPONSE"
category_text permanent = "PERMANENT"
