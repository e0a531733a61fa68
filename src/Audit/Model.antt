-- ===== src/Audit/Model.antt =====
-- Audit events and the contracts of their actions: internal/auditclient/client.go. JSON, the digest and the
-- IP parser are a `Codec`; times are instants in nanoseconds, 0 being the zero time.
use asset_api.Base.{ℕ, String, Bool, Option, none, some, List, [], ◌∷◌, str_eq, if◌then◌else◌, ℤ}

-- A value of the metadata: a text, a number that is whole, or anything else.
pub data Value : Type 0 where
  text : String → Value
  whole : ℤ → Value
  other : Value

-- map[string]any, its keys distinct.
abbrev pub Metadata : Type 0
Metadata = List (String × Value)

pub record Action : Type 0 where
  pub action : String
  pub category : String
  pub resource_owner_service : String
  pub resource_type : String
  pub resource_id_grammar : String
  pub event_id_grammar : String
  pub identity_strategy : String
  pub outcome : String
  pub severity : String
  pub metadata_classification : String
  pub retention_class : String
  pub metadata_schema : String
  pub actor_types : List String
  pub service_principals : List String

pub record Event : Type 0 where
  pub event_id : String
  pub schema_version : ℕ
  pub occurred_at : ℕ
  pub request_id : String
  pub trace_id : String
  pub source_service : String
  pub actor_type : String
  pub actor_id : String
  pub action : String
  pub category : String
  pub resource_owner_service : String
  pub resource_type : String
  pub resource_id : String
  pub outcome : String
  pub severity : String
  pub metadata_classification : String
  pub retention_class : String
  pub metadata : Metadata

-- The contracts of LoadFixture.
pub record Fixture : Type 0 where
  pub source_service : String
  pub actions : List Action

-- `decode`: the event of a text that is one JSON object with these fields alone, its metadata an object.
-- `fixture`: none if the embedded file is not valid.
pub record Codec : Type 0 where
  pub encode : Event → String
  pub decode : String → Option Event
  pub sha256 : String → String
  pub is_ip : String → Bool
  pub fixture : Option Fixture

unfoldable pub contract_of : String → List Action → Option Action
contract_of name [] = none
contract_of name (a ∷ rest) = if str_eq a.action name then some a else contract_of name rest
