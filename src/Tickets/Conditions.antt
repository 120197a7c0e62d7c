-- ===== src/Tickets/Conditions.antt =====
-- The conditions that the service writes compare columns with texts, also once they are scoped.
use agentdesk_nestjs.Base.{◌≡◌, refl, true, [], ◌∷◌, Option, none, some, String, Text}
use agentdesk_nestjs.Tenancy.{stamp, set_field}
use agentdesk_nestjs.Tenancy.Database.{textual}
use agentdesk_nestjs.Tickets.{by_id, status_filter}

pub textual-by_id : (tenant_id : String) (id : Text) → textual (stamp tenant_id (by_id id)) ≡ true
unfolding textual stamp set_field
textual-by_id tenant_id id = refl

pub textual-filter :
    (tenant_id : String) (status : Option Text)
    → textual (stamp tenant_id (status_filter status)) ≡ true
unfolding textual stamp set_field
textual-filter tenant_id none = refl
textual-filter tenant_id (some []) = refl
textual-filter tenant_id (some (c ∷ status)) = refl
