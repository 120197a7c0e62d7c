-- ===== src/Conversation/Stored.antt =====
-- What an update of a conversation leaves in the database.
use agentdesk_nestjs.Base.{◌≡◌, ◌≢◌, List, ◌∷◌, ◌++◌, Option, some, String}
use agentdesk_nestjs.Json.{Json, Fields, get_field}
use agentdesk_nestjs.Llm.{ChatMessage}
use agentdesk_nestjs.Tenancy.{TenantContext}
use agentdesk_nestjs.Tenancy.Database.{Database, Sets, Alike}
use agentdesk_nestjs.Tenancy.Confinement.{Client}
use agentdesk_nestjs.Conversation.{ConversationStatus, StoredMessages, Conversation, to_messages}
use agentdesk_nestjs.Conversation.Messages.{stored_in}
use agentdesk_nestjs.Conversation.Rows.{with_messages, with_status, conversation_of}
use agentdesk_nestjs.Conversation.Answers.{OwnRow}

-- The row's column holds a JSON value that reads as the messages, up to what a JSON column changes.
abbrev pub Keeps : List ChatMessage → Fields → Type 0
Keeps ms f =
    (v w : Json) × (get_field "messages" f ≡ some w)
    × Alike v w
    × (stored_in (some v) ≡ StoredMessages.messages ms)

module _ {S : Type 0} (query : Client S) (rows : String → S → List Fields)
    (db : Database query rows) (context : TenantContext) where
  abbrev pub written_data : List ChatMessage → Option ConversationStatus → Fields
  written_data ms status = with_messages (some ms) (with_status status)

  -- One row of the tenant with the id holds the messages, and they were returned as that row reads;
  -- all else is as before.
  abbrev pub Stores :
      String → List ChatMessage → Option ConversationStatus → S → List ChatMessage → S → Type 0
  Stores id ms status s r t =
      ((m : String) → m ≢ "Conversation" → rows m t ≡ rows m s)
      × ((before after : List Fields) × (f g : Fields) × (rows "Conversation" s
            ≡ before ++ f ∷ after)
          × (rows "Conversation" t ≡ before ++ g ∷ after)
          × OwnRow context.tenant_id id f
          × (r ≡ to_messages (conversation_of g).messages)
          × Keeps ms g
          × Sets (written_data ms status) f g)
