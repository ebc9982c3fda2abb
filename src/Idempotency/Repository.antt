-- ===== src/Idempotency/Repository.antt =====
-- internal/infrastructure/postgres/repository/idempotency.go and
-- internal/infrastructure/redis/idempotency_cache.go
use airbar_finance.Prelude.{
  ℕ, Bool, true, false, ◌&&◌, Option, none, some, List, [], ◌∷◌, ◌++◌, map, find, any,
  if◌then◌else◌,
}
use airbar_finance.Prelude.Text.{Text, text, same}
use airbar_finance.Domain.Errors.{idempotency, not_found, database, failure}
use airbar_finance.Domain.Idempotency.{Record, Snapshot, Status, processing, completed}
use airbar_finance.Store.World.{Env, M, Result, ok, err, ◌>>=◌, pure, lift}
use airbar_finance.Store.Sql.{Statement, done, on_querier, now_utc, advance}

-- INSERT INTO idempotency_records … ON CONFLICT (idempotency_key) DO NOTHING; the result says
-- whether a row was inserted.
unfoldable pub insert_processing : Record → ℕ → Statement Bool
insert_processing row now d =
    if any (λ r. same r.key row.key) d.idempotency_records
    then done false d
    else done true (record d {
      idempotency_records =
          d.idempotency_records
          ++ (record row {
            status = processing;
            response_snapshot = none;
            created_at = now;
            completed_at = none;
          }
              ∷ []);
    })

unfoldable pub select_record : Text → Statement (Option Record)
select_record key d = done (find (λ r. same r.key key) d.idempotency_records) d

abbrev pub or_not_found : Option Record → Result Record
or_not_found none = err (idempotency not_found)
or_not_found (some row) = ok row

unfoldable pub get_by_key : Env → Text → M Record
get_by_key env key = do row ← on_querier env (select_record key); lift (or_not_found row)

-- What follows the insertion: whether the key is acquired, and the key's record.
unfoldable pub after_insert : Env → Record → ℕ → Bool → M (Bool × Record)
after_insert env row now true = pure (true, record row { status = processing; created_at = now })
after_insert env row now false = do existing ← get_by_key env row.key; pure (false, existing)

unfoldable pub try_begin_processing : Env → Record → M (Bool × Record)
try_begin_processing env row = do
  now ← now_utc env
  inserted ← on_querier env (insert_processing row now)
  after_insert env row now inserted

unfoldable pub is_processing : Status → Bool
is_processing processing = true
is_processing completed = false

-- WHERE idempotency_key = $1 AND status = 'PROCESSING'
unfoldable pub in_flight : Text → Record → Bool
unfolding is_processing
in_flight key row = same row.key key && is_processing row.status

unfoldable pub set_completed : Text → Snapshot → ℕ → Record → Record
unfolding in_flight
set_completed key snapshot now row =
    if in_flight key row
    then record row {
      status = completed;
      response_snapshot = some snapshot;
      completed_at = some now;
    }
    else row

-- The result says whether a row was updated.
unfoldable pub update_completed : Text → Snapshot → ℕ → Statement Bool
update_completed key snapshot now d =
    if any (in_flight key) d.idempotency_records
    then done true (record d {
      idempotency_records = map (set_completed key snapshot now) d.idempotency_records;
    })
    else done false d

unfoldable pub complete : Env → Text → Snapshot → M (Unit {0})
complete env key snapshot = do
  now ← now_utc env
  updated ← on_querier env (update_completed key snapshot now)
  lift (if updated then ok tt else err (idempotency not_found))

abbrev pub without_processing : Text → List Record → List Record
without_processing key [] = []
without_processing key (row ∷ rows) =
    if in_flight key row then without_processing key rows else row ∷ without_processing key rows

unfoldable pub delete_in_flight : Text → Statement (Unit {0})
delete_in_flight key d =
    done tt (record d { idempotency_records = without_processing key d.idempotency_records })

unfoldable pub delete_processing : Env → Text → M (Unit {0})
delete_processing env key = on_querier env (delete_in_flight key)

abbrev pub key_prefix : Text
key_prefix = text "idempotency:"

abbrev pub lookup : Text → List (Text × Snapshot) → Option Snapshot
lookup key [] = none
lookup key ((k, snapshot) ∷ rest) = if same k key then some snapshot else lookup key rest

-- `Get` of the cache. An entry can have expired.
unfoldable pub cache_get : Env → Text → M (Option Snapshot)
cache_get env key w =
    if env.fails w.tick
    then (err (database failure), advance w)
    else (ok (if env.evicted w.tick then none else lookup (key_prefix ++ key) w.cache), advance w)

-- `Set` of the cache; the newest entry of a key is its value.
unfoldable pub cache_set : Env → Text → Snapshot → M (Unit {0})
cache_set env key snapshot w =
    if env.fails w.tick
    then (err (database failure), advance w)
    else (ok tt, advance (record w { cache = (key_prefix ++ key, snapshot) ∷ w.cache }))
