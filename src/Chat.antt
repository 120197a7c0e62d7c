-- ===== src/Chat.antt =====
-- src/agent/chat.controller.ts: the endpoints of the agent, behind the middleware.
pub mod Store
pub mod Requests
mod Tests
use agentdesk_nestjs.Base.{List, Option, none, some, String, Text, Action}
use agentdesk_nestjs.Llm.{ChatMessage}
use agentdesk_nestjs.Tenancy.{TenantContext}
use agentdesk_nestjs.Agent.{World, AgentService, ChatResponse}
use agentdesk_nestjs.Agent.Approval.{ApproveDecision, chat, approve}

-- dto/chat.dto.ts
pub record ChatDto : Type 0 where
  pub message : Text
  pub conversation_id : Option String
  pub conversation_history : Option (List ChatMessage)
  pub system_prompt : Option Text

-- dto/approve-chat.dto.ts
pub record ApproveChatDto : Type 0 where
  pub conversation_id : String
  pub decisions : List ApproveDecision

-- A request to one of the two endpoints.
pub data ChatCall : Type 0 where
  chats : ChatDto → ChatCall
  approves : ApproveChatDto → ChatCall

-- `getUserId` of agent.service.ts
abbrev pub get_user_id : Option TenantContext → Option String
get_user_id none = none
get_user_id (some context) = context.user_id

unfoldable pub respond_to :
    {Schema S P : Type 0}
    → AgentService Schema S P
    → Option TenantContext
    → ChatCall
    → Action (World S P) ChatResponse
respond_to service context (chats dto) =
    chat service (get_user_id context) dto.message dto.conversation_history dto.system_prompt
      dto.conversation_id
respond_to service context (approves dto) = approve service dto.conversation_id dto.decisions
