-- ===== src/Llm.antt =====
-- src/llm/llm.types.ts: the shapes that the agent loop and the providers share.
pub mod Fake
pub mod OpenAi
pub mod Anthropic
pub mod Wire
pub mod Factory
mod Tests
use agentdesk_nestjs.Base.{ℕ, List, Option, String, Text}
use agentdesk_nestjs.Json.{Fields}

pub data Role : Type 0 where
  user assistant tool : Role

pub data LlmStopReason : Type 0 where
  end_turn tool_use max_tokens stop_sequence error max_iterations : LlmStopReason

pub record LlmToolCall : Type 0 where
  pub id : String
  pub name : String
  pub arguments : Fields

pub record ChatMessage : Type 0 where
  pub role : Role
  pub content : Text
  pub tool_calls : Option (List LlmToolCall)
  pub tool_call_id : Option String

pub record LlmUsage : Type 0 where
  pub input_tokens : ℕ
  pub output_tokens : ℕ

-- A definition as the providers see it. `Schema` is the type of the schema library.
pub record ToolDefinition (Schema : Type 0) : Type 0 where
  pub name : String
  pub description : String
  pub input_schema : Schema

pub record LlmRequest (Schema : Type 0) : Type 0 where
  pub model : String
  pub system : Option Text
  pub messages : List ChatMessage
  pub tools : Option (List (ToolDefinition Schema))
  pub max_tokens : Option ℕ

pub record LlmResponse : Type 0 where
  pub content : Text
  pub tool_calls : List LlmToolCall
  pub stop_reason : LlmStopReason
  pub usage : LlmUsage
  pub model : String
