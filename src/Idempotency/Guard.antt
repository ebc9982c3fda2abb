-- ===== src/Idempotency/Guard.antt =====
-- internal/usecase/idempotency/guard.go, with a cache, as in cmd/server/main.go
use airbar_finance.Prelude.{Bool, true, false, Option, none, some}
use airbar_finance.Prelude.Text.{Text, is_empty}
use airbar_finance.Domain.Errors.{idempotency, key_required, conflict}
use airbar_finance.Domain.Idempotency.{Record, Snapshot, Status, processing, completed}
use airbar_finance.Store.World.{Env, M, ◌>>=◌, ◌>>◌, pure, fail, ignore, fail_if}
use airbar_finance.Idempotency.Repository.{
  try_begin_processing, delete_processing, cache_get, cache_set,
}
use airbar_finance.Idempotency.Repository

abbrev pub new_record : Text → Text → Text → Text → Record
new_record key scope resource_type resource_id = record {
  key = key;
  scope = scope;
  resource_type = resource_type;
  resource_id = resource_id;
  status = processing;
  response_snapshot = none;
  created_at = 0;
  completed_at = none;
}

-- The record of a key that is taken.
unfoldable pub replay_of : Env → Text → Status → Option Snapshot → M (Option Snapshot)
replay_of env key completed (some snapshot) =
    ignore (cache_set env key snapshot) >> pure (some snapshot)
replay_of env key completed none = pure none
replay_of env key processing snapshot = fail (idempotency conflict)

unfoldable pub after_begin : Env → Text → Bool × Record → M (Option Snapshot)
after_begin env key (true, row) = pure none
after_begin env key (false, row) = replay_of env key row.status row.response_snapshot

unfoldable pub after_cache : Env → Record → Option Snapshot → M (Option Snapshot)
after_cache env row (some snapshot) = pure (some snapshot)
after_cache env row none = try_begin_processing env row >>= after_begin env row.key

-- With a snapshot as the result, the handler is not to run.
unfoldable pub begin : Env → Text → Text → Text → Text → M (Option Snapshot)
begin env key scope resource_type resource_id = do
  fail_if (is_empty key) (idempotency key_required)
  cached ← cache_get env key
  after_cache env (new_record key scope resource_type resource_id) cached

unfoldable pub complete : Env → Text → Snapshot → M (Unit {0})
complete env key snapshot = Repository.complete env key snapshot >> cache_set env key snapshot

unfoldable pub rollback : Env → Text → M (Unit {0})
rollback env key = delete_processing env key
