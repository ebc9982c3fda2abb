-- ===== src/Tests/Idempotency.antt =====
-- The theorems on repeated calls at concrete inputs.
use mathlib.Core.Path.{subst}
use airbar_finance.Prelude.{◌≡◌, ◌≤◌, refl, some, none, [], ◌∷◌, ◌++◌, arith}
use airbar_finance.Prelude.Text.{Text, text, same}
use airbar_finance.Domain.Errors.{status, aborted, internal}
use airbar_finance.Domain.Idempotency.{Record, processing}
use airbar_finance.Store.World.{Db, M, ok, err, pure, fail, ◌>>=◌, fail_if, ignore, lift, map_error}
use airbar_finance.Store.Sql.{idle, after, now_utc, on_querier, on_connection, on_pool}
use airbar_finance.Idempotency.Repository.{
  insert_processing, update_completed, delete_in_flight, cache_get, cache_set, try_begin_processing,
  after_insert, delete_processing, in_flight, is_processing, set_completed,
}
use airbar_finance.Idempotency.Repository
use airbar_finance.Idempotency.Guard.{begin, after_cache, after_begin, complete, rollback}
use airbar_finance.Idempotency.Phases.{phase, at_key, taken, given, released, is_free}
use airbar_finance.Idempotency.Phases.Refines.{statements_refine_phases}
use airbar_finance.Store.Yields.{Finds}
use airbar_finance.Idempotency.Methods.{
  MethodSpec, lookup_method, lookup_in, mutating_methods, extract_idempotency_key,
  snapshot_method_key, map_domain_error,
}
use airbar_finance.Idempotency.Interceptor.{
  Incoming, Codec, IsFaithful, field, unary_interceptor, deduplicate, replay_or_run, run_handler,
  after_handler, response_to_snapshot, store_response,
}
use airbar_finance.Idempotency.Replay.{IsAbsent, IsInFlight}
use airbar_finance.Idempotency.Once.{LeavesKeys}
use airbar_finance.Idempotency.Retry.{
  IsKeyed, arriving, repeated_call_replays, failed_call_frees_key, call_in_flight_aborted,
}
use airbar_finance.Idempotency.Exclusion.{starts, begins, one_handler_per_key}
use airbar_finance.Idempotency.Exclusion.Counts.{count}
use airbar_finance.System.{no_rows}
use airbar_finance.Tests.{sound_env}

-- Responses of one field.
abbrev pub id_codec : Codec Text
id_codec = record { to_fields = λ r. some ((text "id", r) ∷ []); of_fields = field (text "id") }

id_codec-IsFaithful : IsFaithful id_codec
unfolding same snapshot_method_key
id_codec-IsFaithful = record {
  reads_back = λ response fields method e.
      let one_field : (text "id", response) ∷ [] ≡ fields = cc e in
      subst (λ f. field (text "id") ((text "@method:" ++ method, method) ∷ f) ≡ some response)
        one_field refl;
}

abbrev pub incoming : Incoming
incoming = record {
  full_method = text "/airbar.finance.v1.EscrowService/CreateEscrow";
  metadata_key = text "k1";
  body_key = [];
  resource_id = text "s1";
}

abbrev pub create_spec : MethodSpec
create_spec = record { scope = text "escrow.create"; resource_type = text "shipment" }

pub incoming-IsKeyed : IsKeyed sound_env incoming create_spec (text "k1")
unfolding same lookup_method lookup_in mutating_methods extract_idempotency_key
incoming-IsKeyed = record { listed = refl; extracted = refl; named = refl }

abbrev served : M Text
served = pure (text "r1")

abbrev broken : M Text
broken = fail (status internal)

served-LeavesKeys : LeavesKeys served
unfolding pure
served-LeavesKeys = record { outside = λ w e. e; records = λ w. refl; cache = λ w. refl }

broken-LeavesKeys : LeavesKeys broken
unfolding fail
broken-LeavesKeys = record { outside = λ w e. e; records = λ w. refl; cache = λ w. refl }

pub no_rows-IsAbsent : IsAbsent (text "k1") (idle no_rows)
no_rows-IsAbsent = record { outside = refl; no_record = refl; no_entry = refl }

served_once :
    (unary_interceptor id_codec sound_env incoming served (idle no_rows)).0 ≡ ok (text "r1")
unfolding unary_interceptor lookup_method lookup_in mutating_methods same deduplicate ◌>>=◌ begin
    extract_idempotency_key cache_get after_cache try_begin_processing now_utc on_querier
    insert_processing after_insert after_begin complete rollback after_handler replay_or_run
    response_to_snapshot run_handler store_response map_domain_error snapshot_method_key cache_set
    Repository.complete delete_in_flight delete_processing in_flight is_processing set_completed
    update_completed on_connection on_pool fail fail_if ignore lift map_error pure
served_once = refl

failed_once :
    (unary_interceptor id_codec sound_env incoming broken (idle no_rows)).0 ≡ err (status internal)
unfolding unary_interceptor lookup_method lookup_in mutating_methods same deduplicate ◌>>=◌ begin
    extract_idempotency_key cache_get after_cache try_begin_processing now_utc on_querier
    insert_processing after_insert after_begin complete rollback after_handler replay_or_run
    response_to_snapshot run_handler store_response map_domain_error snapshot_method_key cache_set
    Repository.complete delete_in_flight delete_processing in_flight is_processing set_completed
    update_completed on_connection on_pool fail fail_if ignore lift map_error pure
failed_once = refl

repeated_call_replays_example :
    ((unary_interceptor id_codec sound_env incoming broken
        (arriving (unary_interceptor id_codec sound_env incoming served (idle no_rows)).1)).0
      ≡ ok (text "r1"))
    × ((unary_interceptor id_codec sound_env incoming broken (
          arriving
            (unary_interceptor id_codec sound_env incoming served (idle no_rows)).1)).1.committed
        ≡ (unary_interceptor id_codec sound_env incoming served (idle no_rows)).1.committed)
repeated_call_replays_example =
    repeated_call_replays id_codec sound_env sound_env incoming create_spec (text "k1") served
      broken (idle no_rows) (text "r1") id_codec-IsFaithful incoming-IsKeyed incoming-IsKeyed
      (λ t. refl) (λ t. refl) no_rows-IsAbsent served-LeavesKeys served_once

failed_call_frees_key_example :
    IsAbsent (text "k1") (unary_interceptor id_codec sound_env incoming broken (idle no_rows)).1
failed_call_frees_key_example =
    failed_call_frees_key id_codec sound_env incoming create_spec (text "k1") incoming-IsKeyed
      broken (idle no_rows) (status internal) (λ t. refl) no_rows-IsAbsent broken-LeavesKeys
      failed_once

abbrev row : Record
row = record {
  key = text "k1";
  scope = text "escrow.create";
  resource_type = text "shipment";
  resource_id = text "s1";
  status = processing;
  response_snapshot = none;
  created_at = 0;
  completed_at = none;
}

abbrev in_progress : Db
in_progress = record no_rows { idempotency_records = row ∷ [] }

in_progress-IsInFlight : IsInFlight (text "k1") (idle in_progress)
unfolding same
in_progress-IsInFlight = record {
  outside = refl;
  row = row;
  known = refl;
  found = refl;
  unfinished = refl;
  no_entry = refl;
}

call_in_flight_aborted_example :
    ((unary_interceptor id_codec sound_env incoming served (idle in_progress)).0
      ≡ err (status aborted))
    × ((unary_interceptor id_codec sound_env incoming served (idle in_progress)).1.committed
        ≡ in_progress)
call_in_flight_aborted_example =
    call_in_flight_aborted id_codec sound_env incoming create_spec (text "k1") incoming-IsKeyed
      served (idle in_progress) (λ t. refl) in_progress-IsInFlight

one_handler_per_key_example : count (text "k1") (text "k1" ∷ []) ≤ 1
unfolding insert_processing
one_handler_per_key_example =
    one_handler_per_key in_progress (text "k1" ∷ []) (text "k1")
      (begins row 0 no_rows in_progress [] (starts no_rows refl) refl)

statements_refine_phases_example :
    ((phase
          (text "k1")
          (after (insert_processing row 1 in_progress) in_progress).idempotency_records
        ≡ at_key (text "k1") (text "k1") taken (phase (text "k1") (row ∷ [])))
      × Finds
          (λ inserted. inserted ≡ is_free (phase (text "k1") (row ∷ [])))
          (insert_processing row 1 in_progress))
    × ((phase
            (text "k1")
            (after (update_completed (text "k1") [] 1 in_progress) in_progress).idempotency_records
          ≡ at_key (text "k1") (text "k1") (given []) (phase (text "k1") (row ∷ [])))
        × (phase
              (text "k1")
              (after (delete_in_flight (text "k1") in_progress) in_progress).idempotency_records
            ≡ at_key (text "k1") (text "k1") released (phase (text "k1") (row ∷ []))))
unfolding same
statements_refine_phases_example =
    statements_refine_phases row (text "k1") [] 1 (text "k1") in_progress (omega arith)
