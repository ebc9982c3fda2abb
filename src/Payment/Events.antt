-- ===== src/Payment/Events.antt =====
-- internal/infrastructure/postgres/repository/provider_event.go, HashPayload of
-- internal/usecase/payment/amount.go, and internal/usecase/provider/list_provider_events.go
use airbar_finance.Prelude.{
  ℕ, ◌-◌, ◌*◌, Bool, ◌&&◌, ◌||◌, not, List, [], ◌∷◌, ◌++◌, any, leb, length, take, drop,
  if◌then◌else◌,
}
use airbar_finance.Prelude.Int.{ℤ, pos, negsuc, pos_part, ltb_ℤ, wrap_64}
use airbar_finance.Prelude.Text.{Text, text, same, is_empty}
use airbar_finance.Domain.Audit.{Payload}
use airbar_finance.Domain.Errors.{unique_violation, foreign_key_violation, failure}
use airbar_finance.Domain.Provider.{provider_zibal, EventType, request, verify, callback, Event}
use airbar_finance.Store.World.{Db, Env, M, ◌>>=◌, pure}
use airbar_finance.Store.Sql.{Outcome, Statement, done, violates, on_querier, new_uuid, now_utc}

unfoldable pub event_type_text : EventType → Text
event_type_text request = text "REQUEST"
event_type_text verify = text "VERIFY"
event_type_text callback = text "CALLBACK"

-- The JSON of a payload and its hash.
unfoldable pub hash_payload : Env → Payload → Text × Text
hash_payload env payload = let raw = env.json_marshal payload in (raw, env.sha256_hex raw)

-- INSERT INTO provider_events, under UNIQUE (idempotency_key) and the reference to the order.
unfoldable pub insert_event : Event → Statement (Unit {0})
insert_event row d =
    if any (λ r. same r.idempotency_key row.idempotency_key) d.provider_events
    then violates unique_violation
    else if not
        (is_empty row.payment_order_id || any (λ o. same o.id row.payment_order_id) d.orders)
    then violates foreign_key_violation
    else done tt (record d { provider_events = d.provider_events ++ (row ∷ []) })

-- `Create` of an event of the provider's, without what the database fills in.
unfoldable pub create_event : Env → EventType → Text → Payload → Text → Bool → M (Unit {0})
create_event env event_type payment_order_id payload idempotency_key processed = do
  id ← new_uuid env
  now ← now_utc env
  let (raw, hash) = hash_payload env payload
  on_querier env (
      insert_event (record {
        id = id;
        provider = provider_zibal;
        event_type = event_type;
        payment_order_id = payment_order_id;
        payload = raw;
        payload_hash = hash;
        idempotency_key = idempotency_key;
        processed = processed;
        created_at = now;
      }))

pub record ListFilter : Type 0 where
  pub provider : Text
  pub event_type : Text
  pub payment_order_id : Text
  pub page : ℤ
  pub limit : ℤ

-- `filter` with the page and the limit that ListProviderEvents and `List` put in their place.
unfoldable pub bounded : ListFilter → ListFilter
bounded filter = record filter {
  page = if ltb_ℤ filter.page (pos 1) then pos 1 else filter.page;
  limit =
      if ltb_ℤ filter.limit (pos 1)
      then pos 50
      else if ltb_ℤ (pos 100) filter.limit
      then pos 100
      else filter.limit;
}

unfoldable pub matches : ListFilter → Event → Bool
matches filter event =
    (is_empty filter.provider || same event.provider filter.provider)
    && ((is_empty filter.event_type || same (event_type_text event.event_type) filter.event_type)
        && (is_empty filter.payment_order_id
            || same event.payment_order_id filter.payment_order_id))

unfoldable pub select_matching : ListFilter → List Event → List Event
select_matching filter [] = []
select_matching filter (event ∷ events) =
    let rest = select_matching filter events in if matches filter event then event ∷ rest else rest

-- The newest event first; events of one time stay in the table's order.
unfoldable pub place : Event → List Event → List Event
place row [] = row ∷ []
place row (other ∷ rows) =
    let rest = place row rows in
    if leb other.created_at row.created_at then row ∷ other ∷ rows else other ∷ rest

unfoldable pub newest_first : List Event → List Event
unfolding place
newest_first [] = []
newest_first (row ∷ rows) = place row (newest_first rows)

-- The payload is not selected.
unfoldable pub without_payloads : List Event → List Event
without_payloads [] = []
without_payloads (event ∷ events) = record event { payload = [] } ∷ without_payloads events

unfoldable pub count_matching : ListFilter → Statement ℕ
count_matching filter d = done (length (select_matching filter d.provider_events)) d

-- `(page - 1) * limit` on int, for a positive page and limit.
unfoldable pub page_offset : ListFilter → ℤ
page_offset filter = wrap_64 (pos ((pos_part filter.page - 1) * pos_part filter.limit))

-- OFFSET must not be negative.
abbrev pub at_offset : ℤ → ListFilter → Db → Outcome (List Event)
at_offset (pos n) filter d =
    done
      (without_payloads (
        take (pos_part filter.limit)
          (drop n (newest_first (select_matching filter d.provider_events)))))
      d
at_offset (negsuc n) filter d = violates failure

unfoldable pub select_events : ListFilter → Statement (List Event)
select_events filter d = at_offset (page_offset filter) filter d

-- `List`: the page, and the count of all.
unfoldable pub list_events : Env → ListFilter → M (List Event × ℕ)
list_events env filter = do
  total ← on_querier env (count_matching (bounded filter))
  events ← on_querier env (select_events (bounded filter))
  pure (events, total)

unfoldable pub list_provider_events : Env → ListFilter → M (List Event × ℕ)
list_provider_events env filter = list_events env (bounded filter)
