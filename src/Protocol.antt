-- ===== src/Protocol.antt =====
-- protocol.py: messages, tool calls, and the outcomes of a run.
use proofcoder.Base.{ℕ, String, Option, List}

pub record TokenUsage : Type 0 where
  pub prompt_tokens : Option ℕ
  pub completion_tokens : Option ℕ
  pub total_tokens : Option ℕ

pub record FunctionCall : Type 0 where
  pub name : String
  pub arguments : String

pub record ToolCall : Type 0 where
  pub id : String
  pub function : FunctionCall
  pub type : String

pub record AssistantMessage : Type 0 where
  pub content : Option String
  pub reasoning_content : Option String
  pub finish_reason : Option String
  pub usage : Option TokenUsage
  pub tool_calls : List ToolCall

pub data Message : Type 0 where
  system : String → Message
  user : String → Message
  assistant : AssistantMessage → Message
  tool : String → String → Message

pub data TerminationReason : Type 0 where
  finish_task : TerminationReason
  model_stopped : TerminationReason
  max_steps : TerminationReason
  max_time : TerminationReason
  max_consecutive_failures : TerminationReason
  no_progress : TerminationReason
  interrupted : TerminationReason
  api_error : TerminationReason
  configuration_error : TerminationReason
  checkpoint_error : TerminationReason
  rollback : TerminationReason
  context_budget_exceeded : TerminationReason
  internal_error : TerminationReason

pub data CompletionStatus : Type 0 where
  completed_verified : CompletionStatus
  completed_unverified : CompletionStatus
  completed_no_changes : CompletionStatus
  blocked : CompletionStatus
