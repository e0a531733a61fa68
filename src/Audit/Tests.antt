-- ===== src/Audit/Tests.antt =====
-- Runs of the audit outbox on small tables, and the properties at concrete inputs.
use asset_api.Base.{
  All, first_by, ℕ, matches, update_row, code_le, ◌+◌, ◌-◌, ◌*◌, String, Bool, false, ◌≡◌, refl,
  some, List, [], ◌∷◌, count_if, second, find_row,
}
use asset_api.Errors.{ok}
use asset_api.Audit.Event.{canonical, valid_event}
use asset_api.Audit.Checks.{valid_request, valid_resource, valid_metadata, valid_identity}
use asset_api.Audit.Shapes.{credential_shaped, split_dots}
use asset_api.Audit.Model.{contract_of, Event, Action, Codec}
use asset_api.Audit.Client.{no_response}
use asset_api.Audit.Outbox.{
  candidate, Entry, Row, enqueue_tx, claim, complete, pending, delivered, is_due,
}
use asset_api.Audit.Worker.{Round, process_once}
use asset_api.Audit.Steps.{step, claims, run}
use asset_api.Audit.Fenced.{overtaken-Lost}
use asset_api.Audit.Enqueued.{enqueue_repeats}
use asset_api.Audit.Drained.{Stands, drains}
use asset_api.Audit.Rounds.{IsQuiet}

abbrev deleted : Action
deleted = record {
  action = "asset.deleted";
  category = "data";
  resource_owner_service = "asset-api";
  resource_type = "asset";
  resource_id_grammar = "singleton";
  event_id_grammar = "uuid";
  identity_strategy = "mutation_uuid_v4";
  outcome = "success";
  severity = "info";
  metadata_classification = "none";
  retention_class = "standard";
  metadata_schema = "empty";
  actor_types = "service" ∷ [];
  service_principals = "asset-api" ∷ [];
}

abbrev event : Event
event = record {
  event_id = "01234567-89ab-4def-8123-456789abcdef";
  schema_version = 1;
  occurred_at = 5;
  request_id = "r-1";
  trace_id = "";
  source_service = "asset-api";
  actor_type = "service";
  actor_id = "asset-api";
  action = "asset.deleted";
  category = "data";
  resource_owner_service = "asset-api";
  resource_type = "asset";
  resource_id = "singleton";
  outcome = "success";
  severity = "info";
  metadata_classification = "none";
  retention_class = "standard";
  metadata = [];
}

abbrev codec : Codec
codec = record {
  encode = λ e. e.event_id;
  decode = λ s. some event;
  sha256 = λ s. s;
  is_ip = λ s. false;
  fixture = some (record { source_service = "asset-api"; actions = deleted ∷ [] });
}

abbrev nobody : String → Bool
nobody id = false

abbrev one_row : List Entry
one_row = (enqueue_tx codec "a" event 7 []).1

enqueue_example : (enqueue_tx codec "a" event 7 []).0 ≡ ok tt
unfolding enqueue_tx canonical valid_event contract_of valid_request credential_shaped split_dots
    valid_resource valid_metadata valid_identity matches find_row
enqueue_example = refl

enqueue_repeats_example :
    enqueue_tx codec "b" event 9 (run (claims 8 nobody ∷ []) one_row)
    ≡ (ok tt, run (claims 8 nobody ∷ []) one_row)
enqueue_repeats_example =
    enqueue_repeats codec event "a" "b" 7 9 [] (claims 8 nobody ∷ []) refl tt enqueue_example

abbrev waiting : String → ℕ → Entry
waiting id at = record {
  id = id;
  event_id = id;
  payload = id;
  payload_hash = id;
  status = pending;
  last_error = "";
  attempts = 0;
  available_at = at;
  created_at = 1;
  updated_at = 1;
}

abbrev two_rows : List Entry
two_rows = waiting "a" 3 ∷ waiting "b" 2 ∷ []

abbrev done : Entry
done = record (waiting "c" 3) { status = delivered; attempts = 1 }

abbrev late_rows : List Entry
late_rows = waiting "a" (900 * second) ∷ waiting "b" 2 ∷ []

abbrev row_b : ℕ → Row
row_b n = record { id = "b"; event_id = "b"; payload = "b"; payload_hash = "b"; attempts = n }

abbrev lease : ℕ
lease = 60 * second

first_claim : claim 4 nobody late_rows ≡ (some (row_b 1), (claim 4 nobody late_rows).1)
unfolding claim candidate first_by update_row code_le
first_claim = refl

next_claim : claim (5 + lease) nobody (run (claims 4 nobody ∷ []) (claim 4 nobody late_rows).1) ≡ (
  some (row_b 2),
  (claim (5 + lease) nobody (run (claims 4 nobody ∷ []) (claim 4 nobody late_rows).1)).1,
)
unfolding run step claim candidate first_by update_row code_le
next_claim = refl

overtaken-Lost_example :
    complete (row_b 1) delivered "" 7 7 (
      run [] (claim (5 + lease) nobody (run (claims 4 nobody ∷ []) (claim 4 nobody late_rows).1)).1)
    ≡ (
      false,
      run [] (claim (5 + lease) nobody (run (claims 4 nobody ∷ []) (claim 4 nobody late_rows).1)).1,
    )
overtaken-Lost_example =
    overtaken-Lost late_rows (claim 4 nobody late_rows).1
      (claim (5 + lease) nobody (run (claims 4 nobody ∷ []) (claim 4 nobody late_rows).1)).1
      (row_b 1) (row_b 2) (claims 4 nobody ∷ []) [] 4 (5 + lease) nobody nobody delivered "" 7 7
      ((refl, tt), (tt, tt)) first_claim next_claim refl

abbrev quiet : ℕ → Round
quiet n = record {
  claimed_at = 4;
  locked = nobody;
  reply = no_response;
  between = [];
  now = 4;
  random = 3;
}

quiet-IsQuiet : (n : ℕ) → IsQuiet 4 (quiet n)
quiet-IsQuiet n = record { claims_now = refl; ends_now = refl; alone = refl; unlocked = λ id. refl }

drains_example :
    (after : List Entry) × (process_once codec false quiet two_rows ≡ (ok tt, after))
    × (count_if (is_due 4) after ≡ count_if (is_due 4) two_rows - 20)
    × All (Stands 4 codec false quiet quiet-IsQuiet two_rows) after
drains_example = drains 4 codec false quiet two_rows quiet-IsQuiet ((refl, tt), (tt, tt))
