-- ===== src/Types.antt =====
-- types/types.go: the tiers and the wire types of requests, responses and routing decisions. The
-- sampling parameters of a request (temperature, stop, tool choice and the like) are passed
-- through by the program and read by none of its code, so they have no field here. Raw JSON is its
-- text.
pub mod Errors
pub mod Json
pub mod Client
use nadir.Prelude.{ℕ, Bool, Option, List}
use nadir.Prelude.Text.{Text}

-- `other` is any string that is none of the constants, such as the empty one.
pub data Tier : Type 0 where
  simple mid complex reasoning free : Tier
  other : Text → Tier

pub record ToolFunction : Type 0 where
  pub name : Text
  pub arguments : Text

pub record ToolCall : Type 0 where
  pub id : Text
  pub kind : Text
  pub function : ToolFunction

pub record Message : Type 0 where
  pub role : Text
  pub content : Text
  pub name : Text
  pub tool_calls : List ToolCall
  pub tool_call_id : Text

pub record Tool : Type 0 where
  pub kind : Text
  pub function : Text

pub record ChatRequest : Type 0 where
  pub model : Text
  pub messages : List Message
  pub stream : Bool
  pub max_tokens : Option ℕ
  pub tools : List Tool

pub record Usage : Type 0 where
  pub prompt_tokens : ℕ
  pub completion_tokens : ℕ
  pub total_tokens : ℕ

pub record Choice : Type 0 where
  pub index : ℕ
  pub message : Message
  pub finish_reason : Text

pub record ChatResponse : Type 0 where
  pub id : Text
  pub object : Text
  pub created : ℕ
  pub model : Text
  pub choices : List Choice
  pub usage : Option Usage

pub record StreamDelta : Type 0 where
  pub role : Text
  pub content : Text
  pub tool_calls : List ToolCall

pub record StreamChoice : Type 0 where
  pub index : ℕ
  pub delta : StreamDelta
  pub finish_reason : Text

pub record StreamChunk : Type 0 where
  pub id : Text
  pub object : Text
  pub created : ℕ
  pub model : Text
  pub choices : List StreamChoice
  pub usage : Option Usage
  pub done : Bool

pub record RouteDecision (F : Type 0) : Type 0 where
  pub model : Text
  pub tier : Tier
  pub provider : Text
  pub score : F
  pub confidence : F
  pub cached : Bool
  pub modifiers : List Text
  pub fallback_chain : List Text

-- tierRank, which router/router.go and cache/session.go declare alike
unfoldable pub tier_rank : Tier → ℕ
tier_rank Tier.free = 0
tier_rank Tier.simple = 1
tier_rank Tier.mid = 2
tier_rank Tier.complex = 3
tier_rank Tier.reasoning = 4
tier_rank (Tier.other _) = 0
