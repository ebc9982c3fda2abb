-- ===== src/Idempotency/Phases/Refines.antt =====
-- The repository's statements implement the life of a key.
use airbar_finance.Prelude.{
  ap, sym, ◌∙◌, ℕ, ◌≡◌, refl, ◌≤◌, false, List, [], ◌∷◌, map, any, inl, inr, Bool-cases,
}
use airbar_finance.Prelude.Text.{Text, same}
use airbar_finance.Domain.Idempotency.{Record, Snapshot}
use airbar_finance.Store.World.{Db}
use airbar_finance.Store.Sql.{after}
use airbar_finance.Store.Yields.{Finds}
use airbar_finance.Idempotency.Repository.{
  insert_processing, in_flight, set_completed, update_completed, delete_in_flight,
}
use airbar_finance.Idempotency.Exclusion.Counts.{copies}
use airbar_finance.Idempotency.Phases.{
  is_free, taken, given, released, phase, at_key, phase-known, phase-none, phase-inserted,
}
use airbar_finance.Idempotency.Phases.Completed.{phase-completed}
use airbar_finance.Idempotency.Phases.Deleted.{phase-deleted}

insert-Finds :
    (row : Record) (now : ℕ) (d : Db)
    → Finds
        (λ inserted. inserted ≡ is_free (phase row.key d.idempotency_records))
        (insert_processing row now d)
unfolding insert_processing
insert-Finds row now d = elim (Bool-cases (any (λ r. same r.key row.key) d.idempotency_records)) [
  | inl known ↦ rw known (sym (phase-known row.key d.idempotency_records known))
  | inr new ↦ rw new (ap (λ p. is_free p) (sym (phase-none row.key d.idempotency_records new)))
]

map_kept :
    (key : Text) (snapshot : Snapshot) (now : ℕ) (rows : List Record)
    → any (in_flight key) rows ≡ false
    → map (set_completed key snapshot now) rows ≡ rows
unfolding set_completed
map_kept key snapshot now [] h = refl
map_kept key snapshot now (row ∷ rows) h = elim (Bool-cases (in_flight key row)) [
  | inl e ↦ cc (rw e at h)
  | inr e ↦ rw e (ap (λ rest. row ∷ rest) (map_kept key snapshot now rows (rw e at h)))
]

phase-updated :
    (key : Text) (snapshot : Snapshot) (now : ℕ) (d : Db) (k : Text)
    → phase k (after (update_completed key snapshot now d) d).idempotency_records
      ≡ at_key key k (given snapshot) (phase k d.idempotency_records)
unfolding update_completed
phase-updated key snapshot now d k = elim (Bool-cases (any (in_flight key) d.idempotency_records)) [
  | inl e ↦ rw e (phase-completed key snapshot now d.idempotency_records k)
  | inr e ↦ rw e (
      ap (phase k) (sym (map_kept key snapshot now d.idempotency_records e))
      ∙ phase-completed key snapshot now d.idempotency_records k)
]

-- The three statements of the repository implement the life of a key, and change the phase of no
-- other key: an insertion succeeds exactly if its key is free, and takes it; a completion stores a
-- response under a key that is held; a deletion frees a key that is held, where at most one record
-- has that key, as the table's primary key ensures.
pub statements_refine_phases :
    (row : Record) (key : Text) (snapshot : Snapshot) (now : ℕ) (k : Text) (d : Db)
    → copies key d.idempotency_records ≤ 1
    → ((phase k (after (insert_processing row now d) d).idempotency_records
          ≡ at_key row.key k taken (phase k d.idempotency_records))
        × Finds
            (λ inserted. inserted ≡ is_free (phase row.key d.idempotency_records))
            (insert_processing row now d))
      × ((phase k (after (update_completed key snapshot now d) d).idempotency_records
            ≡ at_key key k (given snapshot) (phase k d.idempotency_records))
          × (phase k (after (delete_in_flight key d) d).idempotency_records
              ≡ at_key key k released (phase k d.idempotency_records)))
unfolding delete_in_flight
statements_refine_phases row key snapshot now k d once = (
  (phase-inserted row now d k, insert-Finds row now d),
  (phase-updated key snapshot now d k, phase-deleted key d.idempotency_records k once),
)
