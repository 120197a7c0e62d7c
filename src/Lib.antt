-- ===== src/Lib.antt =====
-- AgentDesk: a help-desk agent over several tenants.
--
-- A turn of a conversation is a loop: the model is asked, the tools that it calls are run, their
-- results are added to the history, and the model is asked again. Tools that need approval are not
-- run by the loop: it pauses, and `approve` resumes it with the user's decisions. All data lies in
-- one database, which the services reach through a client that is scoped to the tenant of the
-- request.
--
-- Parts and files.
--   Base      lists, texts of UTF-16 units, maps, and methods that may throw (Base.Actions).
--   Json      JSON values and `JSON.stringify`; Json.Lex and Json.Parse are `JSON.parse`, and
--             Json.RoundTrip is about the two. Numbers that are not natural are kept as they are
--             written.
--   Settings  src/common/constants.ts, and the list of allowed origins.
--   Llm       src/llm/llm.types.ts; Llm.Fake, Llm.OpenAi and Llm.Anthropic are the providers
--             (src/llm/*.provider.ts, with src/llm/tool-schema.ts), Llm.Wire is about what the
--             last two send, Llm.OpenAi.Calls about the calls that come back, and Llm.Factory is
--             src/llm/llm.module.ts.
--   Tools     src/agent/tools/tool.interface.ts and tool-registry.service.ts; Tools.Execute is
--             `execute` and `truncateResult`.
--   Conversation  src/agent/conversation.service.ts: the types and the interface that the agent
--             uses; Conversation.Service is the methods, Conversation.Rows their calls of the
--             scoped client, and Conversation.Messages the column that holds the messages.
--   Agent     src/agent/agent.service.ts: Agent.Retry is `callLlmWithRetry` and `checkBudget`,
--             Agent.Batch the calls of one response, Agent.Loop is `runLoop`, Agent.Approval is
--             `approve` and `chat`; Agent.Approval.Verdicts says what the decisions say, without
--             the code, and Agent.Approval.Outcomes what `approve` does with them. Agent.Disarm and Agent.Safety are about approval,
--             Agent.History about the stored history, Agent.Fixture is a small agent for tests.
--             Agent.Invariant carries a predicate of the database through whole turns.
--   Tenancy   src/tenancy/tenant-scoped.prisma.ts and tenant-context.ts; Tenancy.Database states
--             what the base database client is documented to do, and Tenancy.Memory is a database
--             in memory that does it. Tenancy.Confinement is about its operations when they are
--             scoped to a tenant.
--   Tickets   src/tickets/tickets.service.ts and tickets.controller.ts; Tickets.AgentTools is
--             src/agent/tools/ticket-tools.ts, and Tickets.Turns is about the agent with these
--             tools.
--   Auth      src/auth/refresh-tokens.service.ts and auth.service.ts; Auth.Context is
--             src/auth/auth-context.middleware.ts and Auth.Controller src/auth/auth.controller.ts.
--   Users     src/users/users.service.ts; Users.Login is about who can log in.
--   Signup    src/signup/signup.service.ts; Signup.Login is about the login after it.
--   Chat      src/agent/chat.controller.ts, behind the middleware.
--
-- How they interact. A request passes Auth.Context, which binds the tenant context; the services
-- reach the database through the scoped client of Tenancy, which reads that context; the agent's
-- tools are the ticket service, so that what holds of the service holds of a turn.
--
-- State. A method is a function from a state to a result or an exception and a new state; what was
-- written before a throw stays written. The state of the agent, `World`, holds the database, the
-- state of the provider, the events emitted, the readings of the clock and the waits. The variables
-- of one run, `messages` and `acc`, are the record `Run`. The injected services are the record
-- `AgentService`; the schema library, the database client and the clients of the APIs are its
-- parameters.
--
-- Concurrency. The read-only calls of a response run under `Promise.allSettled`; the order in which
-- they finish is an input of the model, each call being one step of the store.
--
-- Bounds. `loop` has a bound on its rounds, for which `runLoop` gives the number of iterations that
-- are left; each round that goes on counts one. `decimal` has a bound on its digits, for which the
-- number itself is enough. Numbers are natural and do not overflow: they are counters, lengths,
-- token counts and milliseconds.
--
-- Assumptions. They are fields of records that a theorem takes: Tenancy.Database.Database is the base
-- client (a JSON column need not keep the order of keys, nor the spelling of a number; a change of a
-- tenant or a user may cascade to other tables; any operation may fail), Auth.SingleUse.HoldsRows and
-- Auth.Rotation.IssuesRows are the table of refresh tokens and the hashes (a hash accepts its text;
-- what else it accepts is open), and Auth.Controller.Sessions.Browses is a browser, which stores a
-- cookie only if its options allow it. Conversation.Remembers, over which the agent's own theorems
-- stand, takes the messages of a conversation to be found as they were stored, in full.
--
-- Left out of what is modelled. The chat-completions provider casts the arguments of a call to a
-- record without looking; there they are any JSON value. A stored list whose items are no messages
-- is read as no messages, where the source casts it. A lone half of a surrogate pair in a key, an id
-- or a column of a user is read as U+FFFD.
--
-- Not modelled: logging, the validation of request bodies, dependency injection, start-up and the
-- smoke script. Conditions on the database are the equalities between columns and texts that the
-- program writes.
pub mod Base
pub mod Json
pub mod Settings
pub mod Llm
pub mod Tools
pub mod Users
pub mod Conversation
pub mod Agent
pub mod Tenancy
pub mod Auth
pub mod Tickets
pub mod Signup
pub mod Chat
