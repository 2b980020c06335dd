-- ===== src/Results.antt =====
-- internal/gateway/types.go: messages, the result of a chat and the items of a stream. The lists of
-- blocks are only passed on here, so a block is a text.
use ghcp_pool_go.Base.{ℕ, Option, List, Text}
use ghcp_pool_go.Errors.{BackendError}
use ghcp_pool_go.Json.{Fields}
use ghcp_pool_go.Usage.{Usage, ToolCall}

pub record ChatResult : Type 0 where
  pub id : Text
  pub status : Text
  pub content : Text
  pub model : Text
  pub usage : Usage
  pub finish_reason : Text
  pub tool_calls : List ToolCall
  pub responses_output : List Text
  pub anthropic_content : List Text

-- The strings that the source uses for the kind of an item.
pub data Kind : Type 0 where
  delta : Kind
  tool_call : Kind
  error : Kind
  done : Kind
  other_kind : Text → Kind

pub record StreamItem : Type 0 where
  pub kind : Kind
  pub text_of : Text
  pub call : ToolCall
  pub index : ℕ
  pub usage : Usage
  pub finish_reason : Text
  pub failure : Option BackendError

-- The attachments of a message are left out.
pub record NeutralMessage : Type 0 where
  pub role : Text
  pub content : Text
  pub tool_calls : List Fields
  pub tool_call_id : Text

-- What a backend's Chat returns.
pub data Reply : Type 0 where
  answers : ChatResult → Reply
  fails : BackendError → Reply
