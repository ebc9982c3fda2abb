-- ===== src/Tests/Retry.antt =====
-- The theorem on a call that is made again after a failure, at a concrete input.
use airbar_finance.Prelude.{◌≡◌, refl, true, [], ◌∷◌}
use airbar_finance.Prelude.Text.{Text, text, same}
use airbar_finance.Domain.Errors.{status, internal}
use airbar_finance.Store.World.{
  Env, M, ok, err, pure, fail, ◌>>=◌, fail_if, ignore, lift, map_error,
}
use airbar_finance.Store.Sql.{idle, now_utc, on_querier, on_connection, on_pool, new_uuid}
use airbar_finance.Idempotency.Repository.{
  insert_processing, update_completed, delete_in_flight, cache_get, cache_set, try_begin_processing,
  after_insert, delete_processing, in_flight, is_processing, set_completed,
}
use airbar_finance.Idempotency.Repository
use airbar_finance.Idempotency.Guard.{begin, after_cache, after_begin, complete, rollback}
use airbar_finance.Idempotency.Methods.{
  lookup_method, lookup_in, mutating_methods, extract_idempotency_key, snapshot_method_key,
  map_domain_error,
}
use airbar_finance.Idempotency.Interceptor.{
  unary_interceptor, deduplicate, replay_or_run, run_handler, after_handler, response_to_snapshot,
  store_response,
}
use airbar_finance.Idempotency.Once.{LeavesKeys}
use airbar_finance.Idempotency.Retry.{arriving, retry_after_failure}
use airbar_finance.Amounts.{parse_amount, parse_int, parse_digits, scan_digits}
use airbar_finance.Escrow.Lifecycle.{create_escrow}
use airbar_finance.Escrow.Repository.{create, insert_escrow, duplicate_escrow_error}
use airbar_finance.Handlers.Errors.{map_escrow_error, escrow_code}
use airbar_finance.Handlers.Escrow.{
  respond, to_escrow_response, CreateEscrowRequest, handle_create_escrow,
}
use airbar_finance.Idempotency.Leaves.{LeavesKeys-bind, LeavesKeys-pure}
use airbar_finance.Idempotency.Leaves.Escrows.{handle_create_escrow-LeavesKeys}
use airbar_finance.System.{no_rows}
use airbar_finance.Tests.{sound_env}
use airbar_finance.Tests.Idempotency.{
  id_codec, incoming, create_spec, incoming-IsKeyed, no_rows-IsAbsent,
}

abbrev request : CreateEscrowRequest
request = record {
  shipment_id = text "s1";
  carrier_user_id = text "bahar";
  payer_user_id = text "ali";
  amount = text "500";
}

-- The handler of CreateEscrow, with the id of its response.
abbrev opened_escrow : Env → M Text
opened_escrow env = handle_create_escrow env request >>= λ response. pure response.id

opened_escrow-LeavesKeys : (env : Env) → LeavesKeys (opened_escrow env)
opened_escrow-LeavesKeys env =
    LeavesKeys-bind _ _ (handle_create_escrow-LeavesKeys env request)
      (λ response. LeavesKeys-pure response.id)

-- No call of the handler reaches the database.
abbrev lost_env : Env
lost_env = record sound_env { fails = λ t. true }

failed_first :
    (unary_interceptor id_codec sound_env incoming (opened_escrow lost_env) (idle no_rows)).0
    ≡ err (status internal)
unfolding unary_interceptor lookup_method lookup_in mutating_methods same deduplicate ◌>>=◌ begin
    extract_idempotency_key cache_get after_cache try_begin_processing now_utc on_querier
    insert_processing after_insert after_begin complete rollback after_handler replay_or_run
    response_to_snapshot run_handler store_response map_domain_error snapshot_method_key cache_set
    Repository.complete delete_in_flight delete_processing in_flight is_processing set_completed
    update_completed on_connection on_pool fail fail_if ignore lift map_error pure
    handle_create_escrow respond parse_amount parse_int parse_digits scan_digits create_escrow
    create new_uuid insert_escrow map_escrow_error escrow_code duplicate_escrow_error
failed_first = refl

retry_after_failure_example :
    (unary_interceptor id_codec sound_env incoming (opened_escrow sound_env) (
      arriving
        (unary_interceptor id_codec sound_env incoming
          (opened_escrow lost_env)
          (idle no_rows)).1)).0
    ≡ ok (text "C")
unfolding unary_interceptor lookup_method lookup_in mutating_methods same deduplicate ◌>>=◌ begin
    extract_idempotency_key cache_get after_cache try_begin_processing now_utc on_querier
    insert_processing after_insert after_begin complete rollback after_handler replay_or_run
    response_to_snapshot run_handler store_response map_domain_error snapshot_method_key cache_set
    Repository.complete delete_in_flight delete_processing in_flight is_processing set_completed
    update_completed on_connection on_pool fail fail_if ignore lift map_error pure
    handle_create_escrow respond parse_amount parse_int parse_digits scan_digits create_escrow
    create new_uuid insert_escrow map_escrow_error escrow_code duplicate_escrow_error
    to_escrow_response
retry_after_failure_example =
    retry_after_failure id_codec sound_env sound_env incoming create_spec (text "k1")
      (opened_escrow lost_env) (opened_escrow sound_env) (idle no_rows) (status internal) (text "C")
      ((text "id", text "C") ∷ []) incoming-IsKeyed incoming-IsKeyed (λ t. refl) (λ t. refl)
      no_rows-IsAbsent (opened_escrow-LeavesKeys lost_env) (opened_escrow-LeavesKeys sound_env)
      failed_first refl refl
