-- ===== src/Idempotency/Replay.antt =====
-- The guard, as it meets the record of a key, where the database and Redis answer.
use airbar_finance.Prelude.{
  ℕ, suc, ◌≡◌, refl, ◌⊎◌, inl, inr, true, false, none, some, List, [], ◌∷◌, ◌++◌, find, any,
  Bool-cases,
}
use airbar_finance.Prelude.Text.{Text, same, is_empty}
use airbar_finance.Domain.Errors.{idempotency, conflict}
use airbar_finance.Domain.Idempotency.{Record, Snapshot, processing, completed}
use airbar_finance.Store.World.{Env, World, ok, err, ◌>>=◌, pure, fail, ignore, lift, fail_if}
use airbar_finance.Store.Sql.{advance, on_querier, on_connection, on_pool, now_utc}
use airbar_finance.Idempotency.Repository.{
  insert_processing, after_insert, try_begin_processing, select_record, get_by_key, cache_get,
  cache_set, lookup, key_prefix,
}
use airbar_finance.Idempotency.Guard.{new_record, replay_of, after_begin, after_cache, begin}

-- The database and Redis answer every call.
abbrev pub Answers : Env → Type 0
Answers env = (t : ℕ) → env.fails t ≡ false

abbrev pub with_records : List Record → World → World
with_records rows w = record w { committed = record w.committed { idempotency_records = rows } }

-- No record and no cached response has the key.
pub record IsAbsent (key : Text) (w : World) : Type 0 where
  pub outside : w.tx ≡ none
  pub no_record : any (λ r. same r.key key) w.committed.idempotency_records ≡ false
  pub no_entry : lookup (key_prefix ++ key) w.cache ≡ none

abbrev pub row_at : Text → Text → Text → Text → ℕ → Record
row_at key scope resource_type resource_id now =
    record (new_record key scope resource_type resource_id) { created_at = now }

cached_absent :
    (env : Env) (key : Text) (w : World)
    → Answers env
    → lookup (key_prefix ++ key) w.cache ≡ none
    → cache_get env key w ≡ (ok none, advance w)
unfolding cache_get
cached_absent env key w works e = elim (Bool-cases (env.evicted w.tick)) [
  | inl gone ↦ rw (works w.tick) (rw gone refl)
  | inr kept ↦ rw (works w.tick) (rw (kept, e) refl)
]

-- A key without a record is acquired, and its record is in flight.
pub begin_absent :
    (env : Env) (key scope resource_type resource_id : Text) (w : World)
    → Answers env
    → is_empty key ≡ false
    → IsAbsent key w
    → begin env key scope resource_type resource_id w ≡ (
      ok none,
      advance (
          advance (
            with_records
              (w.committed.idempotency_records
                ++ (row_at key scope resource_type resource_id (env.clock (suc w.tick)) ∷ []))
              w)),
    )
unfolding begin ◌>>=◌ fail_if after_cache try_begin_processing now_utc after_insert pure after_begin
    on_querier on_connection on_pool insert_processing
begin_absent env key scope resource_type resource_id w works named a = rw named (
    rw (cached_absent env key w works a.no_entry)
      (rw a.outside (rw (works (suc w.tick)) (rw a.no_record refl))))

-- The key's record is answered with a snapshot, and a cached response is the same.
pub record IsAnswered (key : Text) (snapshot : Snapshot) (w : World) : Type 0 where
  pub outside : w.tx ≡ none
  pub row : Record
  pub known : any (λ r. same r.key key) w.committed.idempotency_records ≡ true
  pub found : find (λ r. same r.key key) w.committed.idempotency_records ≡ some row
  pub is_completed : row.status ≡ completed
  pub response : row.response_snapshot ≡ some snapshot
  pub entry :
      (lookup (key_prefix ++ key) w.cache ≡ none)
      ⊎ (lookup (key_prefix ++ key) w.cache ≡ some snapshot)

-- The key's record is in flight, and no response is cached.
pub record IsInFlight (key : Text) (w : World) : Type 0 where
  pub outside : w.tx ≡ none
  pub row : Record
  pub known : any (λ r. same r.key key) w.committed.idempotency_records ≡ true
  pub found : find (λ r. same r.key key) w.committed.idempotency_records ≡ some row
  pub unfinished : row.status ≡ processing
  pub no_entry : lookup (key_prefix ++ key) w.cache ≡ none

cached_answer :
    (env : Env) (key : Text) (snapshot : Snapshot) (w : World)
    → Answers env
    → IsAnswered key snapshot w
    → (cache_get env key w ≡ (ok none, advance w))
      ⊎ (cache_get env key w ≡ (ok (some snapshot), advance w))
unfolding cache_get
cached_answer env key snapshot w works h = elim (Bool-cases (env.evicted w.tick)) [
  | inl gone ↦ inl (rw (works w.tick) (rw gone refl))
  | inr kept ↦ elim h.entry [
    | inl e ↦ inl (rw (works w.tick) (rw (kept, e) refl))
    | inr e ↦ inr (rw (works w.tick) (rw (kept, e) refl))
  ]
]

-- The key of an answered record is answered with its snapshot, and the tables stay as they are.
pub begin_answered :
    (env : Env) (key scope resource_type resource_id : Text) (snapshot : Snapshot) (w : World)
    → Answers env
    → is_empty key ≡ false
    → IsAnswered key snapshot w
    → ((begin env key scope resource_type resource_id w).0 ≡ ok (some snapshot))
      × ((begin env key scope resource_type resource_id w).1.committed ≡ w.committed)
unfolding begin ◌>>=◌ fail_if after_cache try_begin_processing now_utc after_insert pure after_begin
    on_querier on_connection on_pool insert_processing get_by_key select_record lift replay_of
    ignore cache_set
begin_answered env key scope resource_type resource_id snapshot w works named h =
    elim (cached_answer env key snapshot w works h) [
      | inl e ↦ rw named (
          rw e (
            rw h.outside (
              rw (works (suc w.tick)) (
                rw h.known (
                  rw (works (suc (suc w.tick))) (
                    rw h.found (
                      rw (h.is_completed, h.response)
                        (rw (works (suc (suc (suc w.tick)))) (refl, refl)))))))))
      | inr e ↦ rw named (rw e (refl, refl))
    ]

-- The key of a record in flight is refused, and nothing changes but the count of calls.
pub begin_in_flight :
    (env : Env) (key scope resource_type resource_id : Text) (w : World)
    → Answers env
    → is_empty key ≡ false
    → IsInFlight key w
    → ((begin env key scope resource_type resource_id w).0 ≡ err (idempotency conflict))
      × ((begin env key scope resource_type resource_id w).1.committed ≡ w.committed)
unfolding begin ◌>>=◌ fail_if after_cache try_begin_processing now_utc after_insert pure after_begin
    on_querier on_connection on_pool insert_processing get_by_key select_record lift replay_of fail
begin_in_flight env key scope resource_type resource_id w works named h = rw named (
    rw (cached_absent env key w works h.no_entry) (
      rw h.outside (
        rw (works (suc w.tick)) (
          rw h.known (rw (works (suc (suc w.tick))) (rw h.found (rw h.unfinished (refl, refl))))))))
