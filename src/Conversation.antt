-- ===== src/Conversation.antt =====
-- src/agent/conversation.service.ts: what a stored conversation is, and the service as the agent
-- sees it.
pub mod Service
pub mod Messages
pub mod Rows
pub mod Tenants
pub mod Answers
pub mod Stored
mod Tests
use agentdesk_nestjs.Base.{List, [], Option, String, Action, ok, ◌≡◌}
use agentdesk_nestjs.Json.{Json}
use agentdesk_nestjs.Llm.{ChatMessage}

pub data ConversationStatus : Type 0 where
  active paused completed : ConversationStatus

-- The `messages` column. `toJsonValue` and the casts back are identities, and the program writes
-- nothing but arrays of messages into it; `other` is any value that is no array.
pub data StoredMessages : Type 0 where
  messages : List ChatMessage → StoredMessages
  other : Json → StoredMessages

pub record Conversation : Type 0 where
  pub id : String
  pub messages : StoredMessages

unfoldable pub to_messages : StoredMessages → List ChatMessage
to_messages (StoredMessages.messages value) = value
to_messages (other value) = []

-- What `create` returns, and `loadConversation` of the agent.
pub record ConversationIdAndMessages : Type 0 where
  pub id : String
  pub messages : List ChatMessage

-- The methods that the agent calls.
pub record Conversations (S : Type 0) : Type 0 where
  pub find : String → Action S Conversation
  pub create : List ChatMessage → Option String → Action S ConversationIdAndMessages
  pub update_messages :
      String → List ChatMessage → Option ConversationStatus → Action S (List ChatMessage)

-- What the agent relies on: the messages that an update stores are those that are found later.
pub record Remembers {S : Type 0} (conversations : Conversations S) : Type 0 where
  pub found_after_update :
      (id : String) (ms : List ChatMessage) (status : Option ConversationStatus) (s : S)
      {r : List ChatMessage} {t : S}
      → conversations.update_messages id ms status s ≡ (ok r, t)
      → (c : Conversation) × ((conversations.find id t).0 ≡ ok c) × (to_messages c.messages ≡ ms)
