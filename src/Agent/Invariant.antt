-- ===== src/Agent/Invariant.antt =====
-- Predicates on the database that a whole turn keeps, if the tools and the conversation store do.
pub mod Rounds
pub mod Entry
use agentdesk_nestjs.Base.{
  ℕ, zero, suc, ◌-◌, ◌≡◌, List, [], ◌∷◌, Option, none, some, String, Action, Result, Keeps,
  Keeps-bind, sym, ap,
}
use mathlib.Core.Path.{subst}
use agentdesk_nestjs.Json.{Fields}
use agentdesk_nestjs.Llm.{LlmToolCall, ChatMessage}
use agentdesk_nestjs.Tools.{ToolResult, Tool, Registry, SchemaLibrary, get_tool}
use agentdesk_nestjs.Tools.Execute.{execute}
use agentdesk_nestjs.Tools.Execute.Results.{Executes, unknown, refused, threw, ran, execute-Ends}
use agentdesk_nestjs.Conversation.{ConversationStatus, Conversations}
use agentdesk_nestjs.Agent.{World, AgentService, Run, record_answer, on_store}
use agentdesk_nestjs.Agent.Batch.{
  Slots, open_slots, settle, settle_at, settle_in, settle_rest, all_settled, run_call,
  execute_read_only, execute_mutating,
}

-- Every tool of the registry keeps the predicate, whatever its input.
abbrev pub ToolsKeep : {Schema S : Type 0} → (S → Type 0) → Registry Schema S → Type 0
ToolsKeep {Schema} {S} I tools =
    (name : String) (tool : Tool Schema S)
    → get_tool name tools ≡ some tool
    → (fields : Fields) → Keeps I (tool.execute fields)

-- The methods of the conversation store keep it.
pub record StoreKeeps {S : Type 0} (I : S → Type 0) (conversations : Conversations S) : Type 0 where
  pub find_keeps : (id : String) → Keeps I (conversations.find id)
  pub create_keeps :
      (messages : List ChatMessage) (user_id : Option String)
      → Keeps I (conversations.create messages user_id)
  pub update_keeps :
      (id : String) (messages : List ChatMessage) (status : Option ConversationStatus)
      → Keeps I (conversations.update_messages id messages status)

pub execute-Keeps :
    {Schema S : Type 0} (I : S → Type 0) (zod : SchemaLibrary Schema) (tools : Registry Schema S)
    (name : String) (input : Fields)
    → ToolsKeep I tools
    → Keeps I (execute zod tools name input)
execute-Keeps {Schema} {S} I zod tools name input keep s h =
    let (r, _, how) = execute-Ends zod tools name input s in ended r _ how
  where
    ended : (r : ToolResult) (t : S) → Executes zod tools name input s r t → I t
    ended r t (unknown _ _ same) = subst I (sym same) h
    ended r t (refused _ _ _ _ _ same) = subst I (sym same) h
    ended r t (threw tool fields e found _ did _) =
        subst I (ap (λ (x : Result ToolResult × S). x.1) did) (keep name tool found fields s h)
    ended r t (ran tool fields result found _ did _) =
        subst I (ap (λ (x : Result ToolResult × S). x.1) did) (keep name tool found fields s h)

module _ {Schema S P : Type 0} (I : S → Type 0) (service : AgentService Schema S P)
    (tools : ToolsKeep I service.registry) (store : StoreKeeps I service.conversations) where
  abbrev pub Holds : World S P → Type 0
  Holds w = I w.store

  pub on_store-Keeps : {A : Type 0} (m : Action S A) → Keeps I m → Keeps Holds (on_store m)
  on_store-Keeps m keep w h = keep w.store h

  pub run_call-Keeps : (tc : LlmToolCall) → Keeps I (run_call service tc)
  run_call-Keeps tc = execute-Keeps I service.zod service.registry tc.name tc.arguments tools

  settle_at-Keeps : (i : ℕ) (slots : Slots) (s : S) → I s → I (settle_at service i slots s).1
  unfolding settle_at settle
  settle_at-Keeps i [] s h = h
  settle_at-Keeps zero ((tc, none) ∷ slots) s h = run_call-Keeps tc s h
  settle_at-Keeps zero ((tc, some r) ∷ slots) s h = h
  settle_at-Keeps (suc i) (slot ∷ slots) s h = settle_at-Keeps i slots s h

  settle_in-Keeps :
      (order : List ℕ) (slots : Slots) (s : S) → I s → I (settle_in service order slots s).1
  unfolding settle_in
  settle_in-Keeps [] slots s h = h
  settle_in-Keeps (i ∷ order) slots s h = settle_in-Keeps order _ _ (settle_at-Keeps i slots s h)

  settle_rest-Keeps : (slots : Slots) (s : S) → I s → I (settle_rest service slots s).1
  unfolding settle_rest settle
  settle_rest-Keeps [] s h = h
  settle_rest-Keeps ((tc, some r) ∷ slots) s h = settle_rest-Keeps slots s h
  settle_rest-Keeps ((tc, none) ∷ slots) s h = settle_rest-Keeps slots _ (run_call-Keeps tc s h)

  pub execute_read_only-Keeps :
      (order : List ℕ) (calls : List LlmToolCall) (run : Run)
      → Keeps Holds (execute_read_only service order calls run)
  unfolding execute_read_only all_settled
  execute_read_only-Keeps order [] run w h = h
  execute_read_only-Keeps order (tc ∷ tcs) run w h =
      settle_rest-Keeps _ _ (settle_in-Keeps order (open_slots (tc ∷ tcs)) w.store h)

  pub execute_mutating-Keeps :
      (calls : List LlmToolCall) (run : Run) → Keeps Holds (execute_mutating service calls run)
  unfolding execute_mutating
  execute_mutating-Keeps [] run = λ w h. h
  execute_mutating-Keeps (tc ∷ tcs) run =
      Keeps-bind Holds (on_store (run_call service tc))
        (λ result. execute_mutating service tcs (record_answer tc result run))
        (on_store-Keeps (run_call service tc) (run_call-Keeps tc))
        (λ result. execute_mutating-Keeps tcs (record_answer tc result run))
