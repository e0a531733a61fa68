-- ===== src/Requests/Delivery.antt =====
-- A request is not taken for delivered before it is in the queue: internal/scanqueue/dispatcher.go,
-- internal/derivativequeue/dispatcher.go and internal/postgres/store.go.
use asset_api.Base.{
  ℕ, ◌+◌, String, ◌≡◌, refl, sym, subst, Bool, true, false, Option, none, some, List, [], ◌∷◌,
  arith, str_eq, eq_iff, eq_refl, any, is_some, All, All-mono, All-get_elem?, All-set, update_row,
  get_elem?, kept_or, kept_or-All,
}
use asset_api.Requests.Table.{
  OutboxRow, Request, claim_row, claim_request, exactly_one, is_current, delivered, postponed,
  leased, has_event, mark_delivered, schedule_retry,
}
use asset_api.Requests.Dispatch.{
  Progress, unsent, was_sent, send_failed, finished, Ticket, Outbox, DispatchStep, inserts, claims,
  sends, finishes, with_claim, send, send_as, close, finish, finish_as, step, run, retry_delay,
  dispatch_lease,
}

-- The event is in the queue, or has been.
abbrev pub Sent : List String → String → Type 0
Sent log event_id = any (λ e. str_eq e event_id) log ≡ true

-- A delivered row, and a ticket that says so, have been sent.
abbrev pub RowSent : List String → OutboxRow → Type 0
RowSent log r = is_some r.delivered_at ≡ true → Sent log r.event_id

abbrev says_sent : Progress → Bool
says_sent was_sent = true
says_sent _ = false

abbrev pub TicketSent : List String → Ticket → Type 0
TicketSent log t = says_sent t.progress ≡ true → Sent log t.request.event_id

abbrev pub AllSent : Outbox → Type 0
AllSent o = All (RowSent o.sent) o.rows × All (TicketSent o.sent) o.tickets

Sent-more : (log : List String) (e id : String) → Sent log id → Sent (e ∷ log) id
Sent-more log e id h = ground (arith, h)

exactly_one-rows :
    (id : String) (rows : List OutboxRow) (o : Option (List OutboxRow))
    → (exactly_one id rows o).1 ≡ kept_or rows o
exactly_one-rows id rows none = refl
exactly_one-rows id rows (some after) = refl

claim-Sent :
    (log : List String) (until : ℕ) (rows : List OutboxRow) (o : Option OutboxRow)
    → All (RowSent log) rows
    → All (RowSent log) (claim_row until rows o).1
claim-Sent log until rows none h = h
claim-Sent log until rows (some r) h =
    kept_or-All (RowSent log) (has_event r.event_id) (leased until) rows (λ a t p. p) h

with_claim-AllSent :
    (now : ℕ) (o : Outbox) (c : Option Request × List OutboxRow)
    → AllSent o
    → All (RowSent o.sent) c.1
    → AllSent (with_claim now o c)
with_claim-AllSent now o (none, rows) h r = (r, h.1)
with_claim-AllSent now o (some q, rows) h r = (r, ((λ e. absurd (cc)), h.1))

send_as-AllSent :
    (i : ℕ) (succeeds : Bool) (t : Ticket) (o : Outbox) (p : Progress)
    → AllSent o
    → AllSent (send_as i succeeds t o p)
send_as-AllSent i true t o unsent h =
    let log = t.request.event_id ∷ o.sent in
    (
      All-mono (RowSent o.sent) (RowSent log) o.rows
          (λ r s d. Sent-more o.sent t.request.event_id r.event_id (s d)) h.0,
      All-set (TicketSent log) o.tickets i (record t { progress = was_sent }) (λ d. sent_now)
          (All-mono (TicketSent o.sent) (TicketSent log) o.tickets
            (λ u s d. Sent-more o.sent t.request.event_id u.request.event_id (s d)) h.1),
    )
  where
    sent_now : Sent (t.request.event_id ∷ o.sent) t.request.event_id
    sent_now = ground (arith, eq_refl t.request.event_id)
send_as-AllSent i false t o unsent h = (
  h.0,
  All-set (TicketSent o.sent) o.tickets i (record t { progress = send_failed }) (λ d. absurd (cc))
      h.1,
)
send_as-AllSent i succeeds t o was_sent h = h
send_as-AllSent i succeeds t o send_failed h = h
send_as-AllSent i succeeds t o finished h = h

send-AllSent :
    (i : ℕ) (succeeds : Bool) (o : Outbox) (t : Option Ticket)
    → AllSent o
    → AllSent (send i succeeds o t)
send-AllSent i succeeds o none h = h
send-AllSent i succeeds o (some t) h = send_as-AllSent i succeeds t o t.progress h

close-AllSent :
    (i : ℕ) (t : Ticket) (o : Outbox) (rows : List OutboxRow)
    → All (RowSent o.sent) rows
    → AllSent o
    → AllSent (close i t o rows)
close-AllSent i t o rows r h = (
  r,
  All-set (TicketSent o.sent) o.tickets i (record t { progress = finished }) (λ d. absurd (cc)) h.1,
)

finish_as-AllSent :
    (i : ℕ) (t : Ticket) (o : Outbox) (p : Progress)
    → (says_sent p ≡ true → Sent o.sent t.request.event_id)
    → AllSent o
    → AllSent (finish_as i t o p)
unfolding mark_delivered schedule_retry
finish_as-AllSent i t o was_sent s h =
    close-AllSent i t o _
      (rw
        (exactly_one-rows t.request.event_id o.rows
          (update_row (is_current t.request.event_id t.request.attempts) (delivered t.now) o.rows))
        (kept_or-All (RowSent o.sent) (is_current t.request.event_id t.request.attempts)
          (delivered t.now) o.rows (λ r c p d. moved r (ground (arith, c))) h.0))
      h
  where
    moved : (r : OutboxRow) → str_eq r.event_id t.request.event_id ≡ true → Sent o.sent r.event_id
    moved r e = subst (Sent o.sent) (sym ((eq_iff r.event_id t.request.event_id).0 e)) (s refl)
finish_as-AllSent i t o send_failed s h =
    close-AllSent i t o _
      (rw
        (exactly_one-rows t.request.event_id o.rows (
          update_row (is_current t.request.event_id t.request.attempts)
            (postponed (t.now + retry_delay t.request.attempts)) o.rows))
        (kept_or-All (RowSent o.sent) (is_current t.request.event_id t.request.attempts)
          (postponed (t.now + retry_delay t.request.attempts)) o.rows (λ r c p. p) h.0))
      h
finish_as-AllSent i t o unsent s h = h
finish_as-AllSent i t o finished s h = h

finish-AllSent :
    (i : ℕ) (o : Outbox) (t : Option Ticket)
    → get_elem? o.tickets i ≡ t
    → AllSent o
    → AllSent (finish i o t)
finish-AllSent i o none g h = h
finish-AllSent i o (some t) g h =
    finish_as-AllSent i t o t.progress (All-get_elem? (TicketSent o.sent) o.tickets i h.1 g) h

step-AllSent : (t : DispatchStep) (o : Outbox) → AllSent o → AllSent (step t o)
unfolding step claim_request
step-AllSent (inserts event_id asset_id etag now) o h = (((λ d. absurd (cc)), h.0), h.1)
step-AllSent (claims now locked) o h =
    with_claim-AllSent now o _ h (claim-Sent o.sent (now + dispatch_lease) o.rows _ h.0)
step-AllSent (sends i succeeds) o h = send-AllSent i succeeds o _ h
step-AllSent (finishes i) o h = finish-AllSent i o _ refl h

run-AllSent : (ts : List DispatchStep) (o : Outbox) → AllSent o → AllSent (run ts o)
unfolding run
run-AllSent [] o h = h
run-AllSent (t ∷ ts) o h = run-AllSent ts (step t o) (step-AllSent t o h)

-- However the steps of the dispatchers interleave, and wherever some of them stop, every request that
-- the table holds for delivered has been sent to the queue, if that is so of the table at the start, where
-- no dispatcher is at work.
pub delivered-RowSent :
    (ts : List DispatchStep) (rows : List OutboxRow) (sent : List String)
    → All (RowSent sent) rows
    → All
        (RowSent (run ts (record { rows = rows; tickets = []; sent = sent })).sent)
        (run ts (record { rows = rows; tickets = []; sent = sent })).rows
delivered-RowSent ts rows sent h =
    (run-AllSent ts (record { rows = rows; tickets = []; sent = sent }) (h, tt)).0
