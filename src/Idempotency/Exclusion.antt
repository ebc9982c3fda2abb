-- ===== src/Idempotency/Exclusion.antt =====
-- Requests with the same key that run at the same time: their statements on the records, in any order.
pub mod Counts
use mathlib.Core.Path.{subst}
use airbar_finance.Prelude.{
  ap, none, ℕ, suc, ◌+◌, ◌≤◌, ◌≡◌, refl, Bool, true, false, ◌&&◌, List, [], ◌∷◌, ◌++◌, map, any,
  inl, inr, arith, Bool-cases, if◌then◌else◌,
}
use airbar_finance.Prelude.Text.{Text, same, same_iff}
use airbar_finance.Domain.Idempotency.{Record, Snapshot, processing}
use airbar_finance.Store.World.{Db}
use airbar_finance.Store.Sql.{Outcome, done, violates, after}
use airbar_finance.Idempotency.Repository.{
  insert_processing, is_processing, in_flight, set_completed, update_completed, without_processing,
  delete_in_flight,
}
use airbar_finance.Idempotency.Exclusion.Counts.{
  count, copies, in_flights, one_if, in_flights-copies, count-middle, copies-append,
  in_flights-append, copies-none, in_flights-deleted, copies-deleted, copies-completed,
  in_flights-completed, in_flights-completed_other, in_flights-deleted_other,
}

-- The tables and the keys of the requests whose handler runs. A request begins by inserting its
-- record, and ends by completing it, by deleting it, or without either, as a crash or a lost
-- connection does; the handlers change other tables.
pub data Running : Db → List Text → Type 0 where
  starts : (d : Db) → d.idempotency_records ≡ [] → Running d []
  begins :
      (row : Record) (now : ℕ) (d d' : Db) (running : List Text)
      → Running d running
      → insert_processing row now d ≡ done true d'
      → Running d' (row.key ∷ running)
  is_refused :
      (row : Record) (now : ℕ) (d d' : Db) (running : List Text)
      → Running d running
      → insert_processing row now d ≡ done false d'
      → Running d' running
  completes :
      (key : Text) (snapshot : Snapshot) (now : ℕ) (d : Db) (before behind : List Text)
      → Running d (before ++ (key ∷ behind))
      → Running (after (update_completed key snapshot now d) d) (before ++ behind)
  rolls_back :
      (key : Text) (d : Db) (before behind : List Text)
      → Running d (before ++ (key ∷ behind))
      → Running (after (delete_in_flight key d) d) (before ++ behind)
  is_lost :
      (key : Text) (d : Db) (before behind : List Text)
      → Running d (before ++ (key ∷ behind))
      → Running d (before ++ behind)
  handles :
      (d d' : Db) (running : List Text)
      → Running d running
      → d'.idempotency_records ≡ d.idempotency_records
      → Running d' running

-- What holds of a key while requests run.
record IsExclusive (key : Text) (rows : List Record) (running : List Text) : Type 0 where
  once : copies key rows ≤ 1
  held : count key running ≤ in_flights key rows

abbrev new_row : Record → ℕ → Record
new_row row now = record row {
  status = processing;
  response_snapshot = none;
  created_at = now;
  completed_at = none;
}

rows_of : Outcome Bool → List Record
rows_of (done b d) = d.idempotency_records
rows_of (violates e) = []

inserted :
    (row : Record) (now : ℕ) (d d' : Db)
    → insert_processing row now d ≡ done true d'
    → (any (λ r. same r.key row.key) d.idempotency_records ≡ false)
      × (d.idempotency_records ++ (new_row row now ∷ []) ≡ d'.idempotency_records)
unfolding insert_processing rows_of
inserted row now d d' e = elim (Bool-cases (any (λ r. same r.key row.key) d.idempotency_records)) [
  | inl taken ↦ cc (rw taken at e)
  | inr free ↦ (free, ap rows_of (rw free at e))
]

refused :
    (row : Record) (now : ℕ) (d d' : Db)
    → insert_processing row now d ≡ done false d'
    → d.idempotency_records ≡ d'.idempotency_records
unfolding insert_processing rows_of
refused row now d d' e = elim (Bool-cases (any (λ r. same r.key row.key) d.idempotency_records)) [
  | inl taken ↦ ap rows_of (rw taken at e)
  | inr free ↦ cc (rw free at e)
]

module _ (key : Text) where
  IsExclusive-ends :
      (k : Text) (before behind : List Text) (rows rows' : List Record)
      → copies key rows' ≤ copies key rows
      → ((same k key ≡ false) → in_flights key rows' ≡ in_flights key rows)
      → IsExclusive key rows (before ++ (k ∷ behind))
      → IsExclusive key rows' (before ++ behind)
  IsExclusive-ends k before behind rows rows' fewer others h = record {
    once = omega (arith, fewer, h.once);
    held = elim (Bool-cases (same k key)) [
      | inl e ↦
          let middle : count key (before ++ (k ∷ behind)) ≡ 1 + count key (before ++ behind) =
            rw e at (count-middle key k before behind) in
          omega (arith, middle, h.held, h.once, in_flights-copies key rows)
      | inr e ↦
          let middle : count key (before ++ (k ∷ behind)) ≡ 0 + count key (before ++ behind) =
            rw e at (count-middle key k before behind) in
          omega (arith, middle, h.held, others e)
    ];
  }

  inserted-IsExclusive :
      (row : Record) (now : ℕ) (rows : List Record) (running : List Text)
      → any (λ r. same r.key row.key) rows ≡ false
      → IsExclusive key rows running
      → IsExclusive key (rows ++ (new_row row now ∷ [])) (row.key ∷ running)
  unfolding in_flight is_processing
  inserted-IsExclusive row now rows running free h = elim (Bool-cases (same row.key key)) [
    | inl e ↦
        let none_yet : copies key rows ≡ 0 =
          copies-none key rows (rw ((same_iff row.key key).0 e) at free) in
        record {
          once = rw (copies-append key rows (new_row row now), e) (omega (arith, none_yet));
          held = rw (in_flights-append key rows (new_row row now), e) (omega (arith, h.held));
        }
    | inr e ↦ record {
      once = rw (copies-append key rows (new_row row now), e) (omega (arith, h.once));
      held = rw (in_flights-append key rows (new_row row now), e) (omega (arith, h.held));
    }
  ]

  completed-IsExclusive :
      (k : Text) (snapshot : Snapshot) (now : ℕ) (d : Db) (before behind : List Text)
      → IsExclusive key d.idempotency_records (before ++ (k ∷ behind))
      → IsExclusive key
          (after (update_completed k snapshot now d) d).idempotency_records
          (before ++ behind)
  unfolding update_completed
  completed-IsExclusive k snapshot now d before behind h =
      elim (Bool-cases (any (in_flight k) d.idempotency_records)) [
        | inl e ↦ rw e (
            IsExclusive-ends k before behind d.idempotency_records _
              (rw (copies-completed k snapshot now key d.idempotency_records) (omega arith))
              (λ f. in_flights-completed_other k key f snapshot now d.idempotency_records) h)
        | inr e ↦
            rw e
              (IsExclusive-ends k before behind d.idempotency_records _ (omega arith) (λ f. refl) h)
      ]

  exclusive :
      (d : Db) (running : List Text)
      → Running d running
      → IsExclusive key d.idempotency_records running
  unfolding delete_in_flight
  exclusive _ _ (starts d e) = rw e (record { once = omega arith; held = omega arith })
  exclusive _ _ (begins row now d d' running r e) =
      let (free, same_rows) = inserted row now d d' e in
      subst (λ rows. IsExclusive key rows (row.key ∷ running)) same_rows
        (inserted-IsExclusive row now d.idempotency_records running free (exclusive d running r))
  exclusive _ _ (is_refused row now d d' running r e) =
      subst (λ rows. IsExclusive key rows running) (refused row now d d' e) (exclusive d running r)
  exclusive _ _ (completes k snapshot now d before behind r) =
      completed-IsExclusive k snapshot now d before behind (exclusive d _ r)
  exclusive _ _ (rolls_back k d before behind r) =
      IsExclusive-ends k before behind d.idempotency_records _
        (copies-deleted k key d.idempotency_records)
        (λ f. in_flights-deleted_other k key f d.idempotency_records) (exclusive d _ r)
  exclusive _ _ (is_lost k d before behind r) =
      IsExclusive-ends k before behind d.idempotency_records _ (omega arith) (λ f. refl)
        (exclusive d _ r)
  exclusive _ _ (handles d d' running r e) = rw e (exclusive d running r)

-- However the statements of requests are interleaved, with crashes between them, at most one
-- request with a given key runs its handler at a time.
pub one_handler_per_key :
    (d : Db) (running : List Text) (key : Text) → Running d running → count key running ≤ 1
one_handler_per_key d running key r =
    let h = exclusive key d running r in
    omega (arith, h.held, h.once, in_flights-copies key d.idempotency_records)
