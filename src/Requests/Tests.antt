-- ===== src/Requests/Tests.antt =====
-- Runs of the dispatchers over a small outbox, and the properties at concrete inputs.
use asset_api.Base.{String, Bool, true, false, ◌≡◌, refl, List, [], ◌∷◌, All, update_row, first_by}
use asset_api.Errors.{err, conflict}
use asset_api.Requests.Table.{OutboxRow, new_row, claim_request, mark_delivered}
use asset_api.Requests.Dispatch.{
  DispatchStep, claims, sends, finishes, Outbox, run, step, dispatch_once,
}
use asset_api.Requests.Delivery.{RowSent, delivered-RowSent}

abbrev nobody : String → Bool
nobody id = false

abbrev rows : List OutboxRow
rows = new_row "e" "a" "t" 3 ∷ []

abbrev steps : List DispatchStep
steps = claims 5 nobody ∷ sends 0 true ∷ finishes 0 ∷ []

abbrev start : Outbox
start = record { rows = rows; tickets = []; sent = [] }

after_one : (run steps start).sent ≡ "e" ∷ []
unfolding run step claim_request first_by update_row
after_one = refl

-- A dispatcher whose lease ran out cannot record its send.
overtaken_mark :
    (mark_delivered "e" 1 9
      (run (claims 5 nobody ∷ claims 30_000_000_006 nobody ∷ []) start).rows).0
    ≡ err conflict
unfolding run step claim_request first_by update_row mark_delivered
overtaken_mark = refl

delivered-RowSent_example : All (RowSent (run steps start).sent) (run steps start).rows
delivered-RowSent_example = delivered-RowSent steps rows [] ((λ e. absurd (cc)), tt)

dispatched_once :
    (dispatch_once 5 nobody true rows).1
    ≡ (run (claims 5 nobody ∷ sends 0 true ∷ finishes 0 ∷ []) start).rows
unfolding dispatch_once run step claim_request first_by update_row mark_delivered
dispatched_once = refl
