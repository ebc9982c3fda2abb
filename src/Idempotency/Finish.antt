-- ===== src/Idempotency/Finish.antt =====
-- The guard at the end of a request, where the database and Redis answer.
use airbar_finance.Prelude.{
  ℕ, suc, ◌≡◌, refl, ap, inl, inr, true, false, none, some, List, [], ◌∷◌, ◌++◌, map, find, any,
  Bool-cases,
}
use airbar_finance.Prelude.Text.{Text, same, same_refl}
use airbar_finance.Domain.Idempotency.{Record, Snapshot, completed}
use airbar_finance.Store.World.{Env, World, ok, ◌>>=◌, lift}
use airbar_finance.Store.Sql.{advance, on_querier, on_connection, on_pool, now_utc}
use airbar_finance.Idempotency.Repository.{
  is_processing, in_flight, set_completed, update_completed, delete_in_flight, delete_processing,
  without_processing, cache_set, lookup, key_prefix,
}
use airbar_finance.Idempotency.Repository
use airbar_finance.Idempotency.Guard.{complete, rollback}
use airbar_finance.Idempotency.Replay.{Answers, IsAnswered, with_records}

-- A row in flight behind rows of other keys.
module _ (key : Text) (row : Record) (opened : in_flight key row ≡ true) where
  any-behind :
      (rows : List Record)
      → any (λ r. same r.key key) rows ≡ false
      → any (in_flight key) (rows ++ (row ∷ [])) ≡ true
  any-behind [] h = rw opened refl
  any-behind (r ∷ rows) h = elim (Bool-cases (in_flight key r)) [
    | inl e ↦ rw e refl
    | inr e ↦ elim (Bool-cases (same r.key key)) [
      | inl s ↦ cc (rw s at h)
      | inr s ↦ rw e (any-behind rows (rw s at h))
    ]
  ]

  abbrev completed_row : Snapshot → ℕ → Record
  completed_row snapshot now = record row {
    status = completed;
    response_snapshot = some snapshot;
    completed_at = some now;
  }

  same_key : same row.key key ≡ true
  unfolding in_flight
  same_key = elim (Bool-cases (same row.key key)) [ inl e ↦ e | inr e ↦ cc (rw e at opened) ]

  other_rows : (r : Record) → same r.key key ≡ false → in_flight key r ≡ false
  unfolding in_flight
  other_rows r e = rw e refl

  find-completed :
      (snapshot : Snapshot) (now : ℕ) (rows : List Record)
      → any (λ r. same r.key key) rows ≡ false
      → (find (λ r. same r.key key) (map (set_completed key snapshot now) (rows ++ (row ∷ [])))
          ≡ some (completed_row snapshot now))
        × (any (λ r. same r.key key) (map (set_completed key snapshot now) (rows ++ (row ∷ [])))
            ≡ true)
  unfolding set_completed
  find-completed snapshot now [] h = rw opened (rw same_key (refl, refl))
  find-completed snapshot now (r ∷ rows) h = elim (Bool-cases (same r.key key)) [
    | inl s ↦ cc (rw s at h)
    | inr s ↦ rw (other_rows r s) (rw s (find-completed snapshot now rows (rw s at h)))
  ]

  without_processing-behind :
      (rows : List Record)
      → any (λ r. same r.key key) rows ≡ false
      → without_processing key (rows ++ (row ∷ [])) ≡ rows
  without_processing-behind [] h = rw opened refl
  without_processing-behind (r ∷ rows) h = elim (Bool-cases (same r.key key)) [
    | inl s ↦ cc (rw s at h)
    | inr s ↦
        rw (other_rows r s) (ap (λ rest. r ∷ rest) (without_processing-behind rows (rw s at h)))
  ]

-- A world whose last record is this one's, in flight, and which has cached no response of it.
pub record IsAcquired (key : Text) (old : List Record) (w : World) : Type 0 where
  pub outside : w.tx ≡ none
  pub row : Record
  pub opened : in_flight key row ≡ true
  pub others : any (λ r. same r.key key) old ≡ false
  pub records : w.committed.idempotency_records ≡ old ++ (row ∷ [])
  pub no_entry : lookup (key_prefix ++ key) w.cache ≡ none

completing :
    (env : Env) (key : Text) (snapshot : Snapshot) (old : List Record) (w : World)
    → Answers env
    → (h : IsAcquired key old w)
    → complete env key snapshot w ≡ (
      ok tt,
      advance (
          advance
            (record (with_records
              (map (set_completed key snapshot (env.clock w.tick)) (old ++ (h.row ∷ [])))
              w) { cache = (key_prefix ++ key, snapshot) ∷ w.cache })),
    )
unfolding complete Repository.complete ◌>>=◌ now_utc on_querier on_connection on_pool
    update_completed lift cache_set
completing env key snapshot old w works h = rw h.outside (
    rw (works w.tick) (
      rw h.records
        (rw (any-behind key h.row h.opened old h.others) (rw (works (suc w.tick)) refl))))

-- Completing a record in flight answers its key.
pub complete_acquired :
    (env : Env) (key : Text) (snapshot : Snapshot) (old : List Record) (w : World)
    → Answers env
    → IsAcquired key old w
    → ((complete env key snapshot w).0 ≡ ok tt)
      × IsAnswered key snapshot (complete env key snapshot w).1
complete_acquired env key snapshot old w works h =
    let (found, known) =
      find-completed key h.row h.opened snapshot (env.clock w.tick) old h.others in
    rw (completing env key snapshot old w works h) (
      refl,
      record {
        outside = h.outside;
        row = completed_row key h.row h.opened snapshot (env.clock w.tick);
        known = known;
        found = found;
        is_completed = refl;
        response = refl;
        entry = inr (rw (same_refl (key_prefix ++ key)) refl);
      },
    )

-- Rolling back a record in flight leaves the other records.
pub rollback_acquired :
    (env : Env) (key : Text) (old : List Record) (w : World)
    → Answers env
    → IsAcquired key old w
    → rollback env key w ≡ (ok tt, advance (with_records old w))
unfolding rollback delete_processing on_querier on_connection on_pool delete_in_flight
rollback_acquired env key old w works h = rw h.outside (
    rw (works w.tick)
      (rw h.records (rw (without_processing-behind key h.row h.opened old h.others) refl)))
