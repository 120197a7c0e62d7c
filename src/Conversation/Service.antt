-- ===== src/Conversation/Service.antt =====
-- src/agent/conversation.service.ts: the methods, over the table that the scoped client gives.
use mathlib.Core.Path.{subst}
use agentdesk_nestjs.Base.{
  ◌≡◌, refl, sym, ap, ◌∙◌, List, Option, none, some, String, units, Action, Result, ok, proceed,
  Exception, not_found, ◌>>=◌, ◌>>◌, >>=-eq-ok, state_eq, ok-injective, pure, throw,
}
use agentdesk_nestjs.Llm.{ChatMessage}
use agentdesk_nestjs.Conversation.{
  ConversationStatus, active, StoredMessages, Conversation, to_messages, ConversationIdAndMessages,
  Conversations, Remembers,
}

-- What the service asks of the scoped client: `findFirst` by id, `create` with the tenant, the
-- user, the messages and the status, and `update` by id with the parts that are given.
pub record ConversationTable (S : Type 0) : Type 0 where
  pub find_first : String → Action S (Option Conversation)
  pub create_row :
      Option String → Option String → List ChatMessage → ConversationStatus → Action S Conversation
  pub update_row :
      String → Option (List ChatMessage) → Option ConversationStatus → Action S Conversation

abbrev pub conversation_not_found : Exception
conversation_not_found = not_found (units "Conversation not found")

module _ {S : Type 0} where
  unfoldable pub found_or_throw : Option Conversation → Action S Conversation
  found_or_throw none = throw conversation_not_found
  found_or_throw (some conversation) = pure conversation

  unfoldable pub find_conversation : ConversationTable S → String → Action S Conversation
  find_conversation table id = table.find_first id >>= found_or_throw

  -- The row that is returned is the one that was written, whose messages are an array.
  unfoldable pub create_conversation :
      ConversationTable S
      → Option String
      → List ChatMessage
      → Option String
      → Action S ConversationIdAndMessages
  create_conversation table tenant_id messages user_id =
      table.create_row tenant_id user_id messages active >>= λ row.
      pure (record { id = row.id; messages = to_messages row.messages })

  unfoldable pub update_messages_of :
      ConversationTable S
      → String
      → List ChatMessage
      → Option ConversationStatus
      → Action S (List ChatMessage)
  update_messages_of table id messages status =
      table.update_row id (some messages) status >>= λ saved. pure (to_messages saved.messages)

  unfoldable pub set_status :
      ConversationTable S → String → ConversationStatus → Action S (Unit {0})
  set_status table id status = table.update_row id none (some status) >> pure tt

  -- The service as the agent sees it; the tenant is that of the request.
  abbrev pub conversation_service : ConversationTable S → Option String → Conversations S
  conversation_service table tenant_id = record {
    find = find_conversation table;
    create = create_conversation table tenant_id;
    update_messages = update_messages_of table;
  }

-- What the service relies on: an update with messages returns a row that holds them, and the row is
-- found by its id and holds them then.
pub record KeepsRows {S : Type 0} (table : ConversationTable S) : Type 0 where
  pub row_after_update :
      (id : String) (ms : List ChatMessage) (status : Option ConversationStatus) (s : S)
      {row : Conversation} {t : S}
      → table.update_row id (some ms) status s ≡ (ok row, t)
      → (c : Conversation) × (row.messages ≡ StoredMessages.messages ms)
        × ((table.find_first id t).0 ≡ ok (some c))
        × (c.messages ≡ StoredMessages.messages ms)

-- Over a table that keeps its rows, a successful update returns the messages that it was given, and
-- the conversation is found afterwards with these messages.
pub update_messages_of-find :
    {S : Type 0} (table : ConversationTable S) (id : String) (ms : List ChatMessage)
    (status : Option ConversationStatus) (s : S) {r : List ChatMessage} {t : S}
    → KeepsRows table
    → update_messages_of table id ms status s ≡ (ok r, t)
    → (r ≡ ms)
      × ((c : Conversation) × ((find_conversation table id t).0 ≡ ok c)
          × (to_messages c.messages ≡ ms))
unfolding find_conversation update_messages_of found_or_throw to_messages
update_messages_of-find {S} table id ms status s keeps e =
    let (row, u, updated, last) =
      >>=-eq-ok (table.update_row id (some ms) status) (λ saved. pure (to_messages saved.messages))
        s e in
    let (c, written, found, same) = keeps.row_after_update id ms status s updated in
    (
      sym (ok-injective last) ∙ ap (λ (m : StoredMessages). to_messages m) written,
      (
        c,
        subst (λ t. (find_conversation table id t).0 ≡ ok c) (state_eq last)
            (ap
              (λ (r : Result (Option Conversation)).
                (proceed r (table.find_first id u).1 found_or_throw).0)
              found),
        rw same refl,
      ),
    )

-- The service is one that the agent can rely on.
pub conversation_service-Remembers :
    {S : Type 0} (table : ConversationTable S) (tenant_id : Option String)
    → KeepsRows table
    → Remembers (conversation_service table tenant_id)
conversation_service-Remembers table tenant_id keeps = record {
  found_after_update = λ id ms status s e. (update_messages_of-find table id ms status s keeps e).1;
}
