-- ===== src/Audit/Event.antt =====
-- The canonical text of an audit event, with NewEvent and EquivalentForEnqueue:
-- internal/auditclient/client.go.
use Prim.Native.String.{len}
use asset_api.Base.{
  ℕ, String, Bool, false, ◌&&◌, ◌||◌, not, Option, none, some, ◌==◌, ltb, str_eq, if◌then◌else◌,
  is_none, is_some,
}
use asset_api.Audit.Checks.{
  valid_request, valid_actor, identity_hash, valid_identity, valid_resource, valid_metadata,
}
use asset_api.Audit.Shapes.{is_asset_id}
use asset_api.Audit.Model.{Metadata, contract_of, Action, Event, Fixture, Codec}

-- The condition of Canonical.
unfoldable pub valid_event : Codec → Fixture → Action → Event → Bool
valid_event k fixture contract e =
    e.schema_version == 1
    && not (e.occurred_at == 0)
    && valid_request k e.request_id
    && (str_eq e.trace_id "" || is_asset_id e.trace_id)
    && str_eq e.source_service fixture.source_service
    && valid_actor contract e.actor_type e.actor_id
    && str_eq e.category contract.category
    && str_eq e.resource_owner_service contract.resource_owner_service
    && str_eq e.resource_type contract.resource_type
    && str_eq e.outcome contract.outcome
    && str_eq e.severity contract.severity
    && str_eq e.metadata_classification contract.metadata_classification
    && str_eq e.retention_class contract.retention_class
    && valid_resource contract.resource_id_grammar e.resource_id
    && valid_metadata contract.metadata_schema e.metadata
    && valid_identity k contract e

abbrev max_payload : ℕ
max_payload = 32768

abbrev pub canonical_with : Codec → Fixture → Event → Option Action → Option (String × String)
canonical_with k fixture e none = none
canonical_with k fixture e (some contract) =
    if valid_event k fixture contract e
    then if ltb max_payload (len (k.encode e))
      then none
      else some (k.encode e, k.sha256 (k.encode e))
    else none

abbrev pub canonical_from : Codec → Event → Option Fixture → Option (String × String)
canonical_from k e none = none
canonical_from k e (some fixture) =
    canonical_with k fixture e (contract_of e.action fixture.actions)

-- The payload and its digest; none stands for ErrInvalidEvent.
unfoldable pub canonical : Codec → Event → Option (String × String)
canonical k e = canonical_from k e k.fixture

abbrev decode_checked : Codec → Option Event → Option Event
decode_checked k none = none
decode_checked k (some e) = if is_none (canonical k e) then none else some e

unfoldable pub decode_event : Codec → String → Option Event
decode_event k payload =
    if ltb max_payload (len payload) then none else decode_checked k (k.decode payload)

abbrev is_admin_access : Option Action → Bool
is_admin_access none = false
is_admin_access (some contract) = str_eq contract.identity_strategy "admin_access_sha256"

abbrev contract_in : Option Fixture → String → Option Action
contract_in none name = none
contract_in (some fixture) name = contract_of name fixture.actions

abbrev has_payload : String → Option (String × String) → Bool
has_payload payload none = false
has_payload payload (some (p, h)) = str_eq payload p

abbrev equivalent_payloads :
    Codec → Event → Event → Option (String × String) → Option (String × String) → Bool
equivalent_payloads k stored incoming (some (p, h)) (some (q, i)) =
    str_eq h i
    || (is_admin_access (contract_in k.fixture incoming.action)
        && str_eq stored.event_id incoming.event_id
        && has_payload p (canonical k (record incoming { occurred_at = stored.occurred_at })))
equivalent_payloads k stored incoming _ _ = false

unfoldable pub equivalent_for_enqueue : Codec → Event → Event → Bool
equivalent_for_enqueue k stored incoming =
    equivalent_payloads k stored incoming (canonical k stored) (canonical k incoming)

-- NewEvent, with the UUID that it draws.
abbrev event_under : Codec → Fixture → Action → Event → Event
event_under k fixture c e =
    let f = record e {
      schema_version = 1;
      source_service = fixture.source_service;
      category = c.category;
      resource_owner_service = c.resource_owner_service;
      resource_type = c.resource_type;
      outcome = c.outcome;
      severity = c.severity;
      metadata_classification = c.metadata_classification;
      retention_class = c.retention_class;
    } in
    if str_eq c.identity_strategy "admin_access_sha256"
    then record f { event_id = identity_hash k f }
    else f

abbrev checked_event : Codec → Event → Option Event
checked_event k e = if is_some (canonical k e) then some e else none

abbrev new_event_with : Codec → Fixture → Event → Option Action → Option Event
new_event_with k fixture e none = none
new_event_with k fixture e (some c) = checked_event k (event_under k fixture c e)

abbrev new_event_from : Codec → Event → Option Fixture → Option Event
new_event_from k e none = none
new_event_from k e (some fixture) =
    new_event_with k fixture e (contract_of e.action fixture.actions)

-- The actor, the request, the time, the metadata and no trace.
unfoldable pub new_event :
    Codec → String → String → String → String → String → String → ℕ → Metadata → Option Event
new_event k uuid action resource actor_type actor request at metadata =
    new_event_from k
      (record {
        event_id = uuid;
        schema_version = 0;
        occurred_at = at;
        request_id = request;
        trace_id = "";
        source_service = "";
        actor_type = actor_type;
        actor_id = actor;
        action = action;
        category = "";
        resource_owner_service = "";
        resource_type = "";
        resource_id = resource;
        outcome = "";
        severity = "";
        metadata_classification = "";
        retention_class = "";
        metadata = metadata;
      })
      k.fixture
