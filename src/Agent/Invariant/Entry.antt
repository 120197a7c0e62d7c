-- ===== src/Agent/Invariant/Entry.antt =====
-- `chat` and `approve` keep every predicate on the database that their parts keep.
use mathlib.Core.Path.{subst}
use mathlib.Core.Option
use agentdesk_nestjs.Base.{
  ◌≡◌, refl, sym, ◌∙◌, Bool, true, false, List, [], ◌∷◌, Option, none, some, String, Text, Action,
  ◌>>=◌, ◌>>◌, pure, lift, Keeps, Keeps-bind, if◌then◌else◌, Bool-cases, inl, inr, or_else, ◌++◌,
}
use agentdesk_nestjs.Json.{Fields}
use agentdesk_nestjs.Llm.{LlmToolCall, ChatMessage}
use agentdesk_nestjs.Tools.{ToolResult, Tool, Registry, get_tool}
use agentdesk_nestjs.Conversation.{ConversationIdAndMessages, to_messages}
use agentdesk_nestjs.Agent.{
  World, AgentService, Run, ChatResponse, fresh_acc, record_answer, on_store, emit,
}
use agentdesk_nestjs.Agent.Batch.{unexpected}
use agentdesk_nestjs.Agent.Disarm.{disarm, disarm_tool, get_tool-disarm}
use agentdesk_nestjs.Agent.Safety.{disarmed}
use agentdesk_nestjs.Agent.Safety.Entry.{chat-disarmed}
use agentdesk_nestjs.Agent.Loop.{run_loop}
use agentdesk_nestjs.Agent.Approval.{
  ApproveDecision, review, carry_out, decision_event, apply_decisions, load_conversation, approve,
  open_conversation, chat, given, start_messages, user_message,
}
use agentdesk_nestjs.Agent.Invariant.{ToolsKeep, StoreKeeps, Holds, run_call-Keeps}
use agentdesk_nestjs.Agent.Invariant.Rounds.{run_loop-Keeps}

module _ {Schema S P : Type 0} (I : S → Type 0) (service : AgentService Schema S P)
    (tools : ToolsKeep I service.registry) (store : StoreKeeps I service.conversations) where
  load_conversation-Keeps : (id : String) → Keeps I (load_conversation service id)
  unfolding load_conversation
  load_conversation-Keeps id =
      Keeps-bind I (service.conversations.find id)
        (λ c. pure (record { id = c.id; messages = to_messages c.messages })) (store.find_keeps id)
        (λ _ s h. h)

  open_conversation-Keeps :
      (id : Option String) (history : Option (List ChatMessage)) (user_id : Option String)
      → Keeps I (open_conversation service id history user_id)
  unfolding open_conversation
  open_conversation-Keeps none history user_id = store.create_keeps (or_else history []) user_id
  open_conversation-Keeps (some id) history user_id = load_conversation-Keeps id

  chat-Keeps_all :
      (user_id : Option String) (text : Text) (history : Option (List ChatMessage))
      (system : Option Text) (id : Option String)
      → Keeps (Holds I service tools store) (chat service user_id text history system id)
  unfolding chat
  chat-Keeps_all user_id text history system id =
      Keeps-bind (Holds I service tools store)
        (on_store (open_conversation service (given id) history user_id))
        (λ existing.
          run_loop service existing.id (or_else system service.default_system_prompt)
            (run_of existing))
        (λ w h. open_conversation-Keeps (given id) history user_id w.store h)
        (λ existing.
          run_loop-Keeps I service tools store existing.id
            (or_else system service.default_system_prompt) (run_of existing))
    where
      run_of : ConversationIdAndMessages → Run
      run_of existing = record {
        messages = start_messages (given id) history existing.messages ++ user_message text ∷ [];
        acc = fresh_acc 0;
      }

  carry_out-Keeps : (approved : Bool) (tc : LlmToolCall) → Keeps I (carry_out service approved tc)
  unfolding carry_out
  carry_out-Keeps true tc = run_call-Keeps {P = P} I service tools store tc
  carry_out-Keeps false tc = λ s h. h

  apply_decisions-Keeps :
      (decided : List (LlmToolCall × Bool)) (run : Run)
      → Keeps (Holds I service tools store) (apply_decisions service decided run)
  unfolding apply_decisions
  apply_decisions-Keeps [] run = λ w h. h
  apply_decisions-Keeps ((tc, approved) ∷ rest) run =
      Keeps-bind (Holds I service tools store) (on_store (carry_out service approved tc))
        (λ result.
          emit (decision_event service approved tc run)
          >> apply_decisions service rest (record_answer tc result run))
        (λ w h. carry_out-Keeps approved tc w.store h)
        (λ result w h. apply_decisions-Keeps rest (record_answer tc result run) _ h)

  -- If every tool and the methods of the conversation store keep a predicate on the database, then
  -- an approval does, whatever is decided, and whether it returns or throws.
  pub approve-Keeps :
      (id : String) (decisions : List ApproveDecision)
      → (w : World S P) → I w.store
      → I (approve service id decisions w).1.store
  unfolding approve
  approve-Keeps id decisions =
      Keeps-bind (Holds I service tools store) (on_store (load_conversation service id)) resume
        (λ w h. load_conversation-Keeps id w.store h)
        (λ existing.
          Keeps-bind (Holds I service tools store)
            (lift (review service.registry existing.messages decisions)) (carry existing.messages)
            (λ w h. h)
            (λ decided.
              Keeps-bind (Holds I service tools store)
                (apply_decisions service decided
                  (record { messages = existing.messages; acc = fresh_acc 1 }))
                (run_loop service id service.default_system_prompt)
                (apply_decisions-Keeps decided _)
                (run_loop-Keeps I service tools store id service.default_system_prompt)))
    where
      carry : List ChatMessage → List (LlmToolCall × Bool) → Action (World S P) ChatResponse
      carry messages decided = do
        run ← apply_decisions service decided (record { messages = messages; acc = fresh_acc 1 })
        run_loop service id service.default_system_prompt run

      resume : ConversationIdAndMessages → Action (World S P) ChatResponse
      resume existing =
          lift (review service.registry existing.messages decisions) >>= carry existing.messages

-- The tools that need no approval keep the predicate.
abbrev pub FreeToolsKeep : {Schema S : Type 0} → (S → Type 0) → Registry Schema S → Type 0
FreeToolsKeep {Schema} {S} I tools =
    (name : String) (tool : Tool Schema S)
    → get_tool name tools ≡ some tool
    → tool.requires_approval ≡ false
    → (fields : Fields) → Keeps I (tool.execute fields)

-- A body that does nothing.
idle : {S : Type 0} → Fields → Action S ToolResult
idle _ = pure unexpected

disarm-ToolsKeep :
    {Schema S : Type 0} (I : S → Type 0) (tools : Registry Schema S)
    → FreeToolsKeep I tools
    → ToolsKeep I (disarm idle tools)
unfolding idle
disarm-ToolsKeep {Schema} {S} I tools free name tool found =
    original (get_tool name tools) refl (sym (get_tool-disarm idle name tools) ∙ found)
  where
    body-Keeps :
        (t : Tool Schema S)
        → get_tool name tools ≡ some t
        → (fields : Fields) → Keeps I ((if t.requires_approval then idle else t.execute) fields)
    body-Keeps t here fields s h = elim (Bool-cases t.requires_approval) [
      | inl gated ↦ rw gated h
      | inr ungated ↦ rw ungated (free name t here ungated fields s h)
    ]

    original :
        (o : Option (Tool Schema S))
        → get_tool name tools ≡ o
        → Option.map (disarm_tool idle) o ≡ some tool
        → (fields : Fields) → Keeps I (tool.execute fields)
    original none here same = cc
    original (some t) here same =
        let exact : disarm_tool idle t ≡ tool = cc same in
        subst (λ (x : Tool Schema S). (fields : Fields) → Keeps I (x.execute fields)) exact
          (body-Keeps t here)

-- A predicate of the database in a world.
abbrev pub StoreHolds : {S P : Type 0} → (S → Type 0) → World S P → Type 0
StoreHolds I w = I w.store

-- If the tools that need no approval and the methods of the conversation store keep a predicate on
-- the database, then a turn does, whatever the model answers, and whether it returns or throws.
pub chat-Keeps :
    {Schema S P : Type 0} (I : S → Type 0) (service : AgentService Schema S P)
    (user_id : Option String) (text : Text) (history : Option (List ChatMessage))
    (system : Option Text) (id : Option String)
    → FreeToolsKeep I service.registry
    → StoreKeeps I service.conversations
    → (w : World S P) → I w.store
    → I (chat service user_id text history system id w).1.store
chat-Keeps I service user_id text history system id free store =
    subst (λ m. Keeps (StoreHolds I) m) (chat-disarmed idle service user_id text history system id)
      (chat-Keeps_all I (disarmed idle service) (disarm-ToolsKeep I service.registry free) store
        user_id text history system id)
