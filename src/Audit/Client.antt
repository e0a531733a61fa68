-- ===== src/Audit/Client.antt =====
-- Client.Append of internal/auditclient/client.go: what an answer of the audit service means.
use asset_api.Base.{
  ℕ, String, Bool, true, false, ◌&&◌, ◌||◌, ◌==◌, leb, if◌then◌else◌, Option, none, some, str_eq,
}

pub data AppendResult : Type 0 where
  append_accepted append_duplicate append_conflict append_retry append_dead_letter : AppendResult

-- The request cannot be made, it has no response, or a response with a status.
pub data Reply : Type 0 where
  unsent no_response : Reply
  responded : ℕ → Reply

unfoldable pub append_result : Bool → Reply → AppendResult
append_result private_https unsent = append_dead_letter
append_result private_https no_response = append_retry
append_result private_https (responded status) =
    if status == 201
    then append_accepted
    else if status == 200
    then append_duplicate
    else if status == 409
    then append_conflict
    else if status == 429
        || (leb 500 status && leb status 599)
        || (private_https && (status == 401 || status == 404))
    then append_retry
    else append_dead_letter

-- HTTPStatus, 0 without a response.
abbrev pub http_status : Reply → ℕ
http_status (responded status) = status
http_status _ = 0

-- Client.Verify: the response's status and the error of its body, if it is JSON.
unfoldable pub verify : Bool → Option (ℕ × Option String) → Bool
verify false response = true
verify true none = false
verify true (some (status, none)) = false
verify true (some (status, some error)) = status == 400 && str_eq error "invalid_event"
