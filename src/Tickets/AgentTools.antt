-- ===== src/Tickets/AgentTools.antt =====
-- src/agent/tools/ticket-tools.ts: the ticket service as tools of the agent.
pub mod Registered
pub mod Hidden
use agentdesk_nestjs.Base.{
  ℕ, Bool, true, false, List, [], ◌∷◌, Option, none, some, String, Text, units, to_lower, includes,
  if◌then◌else◌, Action, Exception, message_of, ◌>>=◌, pure, try_catch,
}
use agentdesk_nestjs.Json.{Json, null, str, arr, obj, Items, nil, cons, Fields, get_field}
use agentdesk_nestjs.Tools.{
  ToolErrorCode, not_found, internal_error, ToolResult, success, failure, Tool, Registry, register,
}
use agentdesk_nestjs.Tenancy.{TenantContext, OperationArgs}
use agentdesk_nestjs.Tenancy.Database.{QueryResult, nothing, one, many}
use agentdesk_nestjs.Tickets.{create, find_all, find_one, update, remove}

-- The schemas that the tools are declared with: an object whose fields have a type and a
-- description.
pub data FieldType : Type 0 where
  string_min : ℕ → FieldType
  uuid ticket_status : FieldType
  optional : FieldType → FieldType

pub record FieldSchema : Type 0 where
  pub name : String
  pub type : FieldType
  pub describe : String

abbrev pub ZodObject : Type 0
ZodObject = List FieldSchema

-- `input.key as string`: the schema has made sure that a field that is not optional is a text.
unfoldable pub text_field : String → Fields → Option Text
text_field k input = elim (get_field k input) [ some (str t) ↦ some t | _ ↦ none ]

abbrev pub or_empty : Option Text → Text
or_empty none = []
or_empty (some t) = t

abbrev pub items_of : List Fields → Items
items_of [] = nil
items_of (f ∷ fs) = cons (obj f) (items_of fs)

-- What the client resolves to, as data of a result.
abbrev pub json_of : QueryResult → Json
json_of nothing = null
json_of (one f) = obj f
json_of (many fs) = arr (items_of fs)

-- The code that a caught error gets.
unfoldable pub code_of : Text → ToolErrorCode
code_of message =
    if includes (to_lower message) (units "not found") then not_found else internal_error

abbrev pub failed : Exception → ToolResult
failed err = failure (record { code = code_of (message_of err); message = message_of err })

module _ {S : Type 0} where
  abbrev pub succeed : Action S QueryResult → Action S ToolResult
  succeed m = m >>= λ r. pure (success (json_of r))

  -- The `try` blocks of three of the tools.
  unfoldable pub guarded : Action S QueryResult → Action S ToolResult
  guarded m = try_catch (succeed m) (λ err. pure (failed err))

  abbrev tool :
      String → String → Bool → Bool → ZodObject → (Fields → Action S ToolResult) → Tool ZodObject S
  tool name description mutating gated schema execute = record {
    name = name;
    description = description;
    input_schema = schema;
    mutating = mutating;
    requires_approval = gated;
    execute = execute;
  }

abbrev ticket_id : FieldSchema
ticket_id = record { name = "ticketId"; type = uuid; describe = "UUID of the ticket" }

module _ {S : Type 0} (query : String → String → OperationArgs → Action S QueryResult)
    (context : Option TenantContext) where
  abbrev pub create_ticket : Tool ZodObject S
  create_ticket =
      tool "create_ticket" "Create a new support ticket. Returns the created ticket with its id."
        true false
        (record { name = "title"; type = string_min 1; describe = "Short title for the ticket" }
          ∷ [])
        (λ input. succeed (create query context (or_empty (text_field "title" input))))

  abbrev pub list_tickets : Tool ZodObject S
  list_tickets =
      tool "list_tickets" "List all tickets for the current tenant. Optionally filter by status."
        false false
        (record {
          name = "status";
          type = optional ticket_status;
          describe = "Filter by ticket status";
        }
          ∷ [])
        (λ input. succeed (find_all query context (text_field "status" input)))

  abbrev pub get_ticket : Tool ZodObject S
  get_ticket =
      tool "get_ticket" "Get a single ticket by its UUID. Returns 404-style error if not found."
        false false (ticket_id ∷ [])
        (λ input. guarded (find_one query context (or_empty (text_field "ticketId" input))))

  abbrev pub update_ticket : Tool ZodObject S
  update_ticket =
      tool "update_ticket" "Update a ticket title and/or status. Only provided fields are changed."
        true false
        (ticket_id
          ∷ record { name = "title"; type = optional (string_min 1); describe = "New title" }
          ∷ record { name = "status"; type = optional ticket_status; describe = "New status" }
          ∷ [])
        (λ input. guarded (
          update query context (or_empty (text_field "ticketId" input))
            (record { title = text_field "title" input; status = text_field "status" input })))

  abbrev pub delete_ticket : Tool ZodObject S
  delete_ticket =
      tool "delete_ticket" "Delete a ticket by its UUID. Returns the deleted ticket." true true
        (ticket_id ∷ [])
        (λ input. guarded (remove query context (or_empty (text_field "ticketId" input))))

  abbrev pub ticket_tools : List (Tool ZodObject S)
  ticket_tools = create_ticket ∷ list_tickets ∷ get_ticket ∷ update_ticket ∷ delete_ticket ∷ []

  -- The loop of `registerTools`.
  unfoldable pub register_all :
      List (Tool ZodObject S) → Registry ZodObject S → Registry ZodObject S
  register_all [] tools = tools
  register_all (t ∷ ts) tools = register_all ts (register t tools)

  unfoldable pub register_tools : Registry ZodObject S → Registry ZodObject S
  register_tools = register_all ticket_tools
