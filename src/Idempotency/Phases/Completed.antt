-- ===== src/Idempotency/Phases/Completed.antt =====
-- What completing a record makes of the phases.
use airbar_finance.Prelude.{
  sym, ◌∙◌, ◌⊎◌, ℕ, ◌≡◌, refl, true, false, List, [], ◌∷◌, map, inl, inr, Bool-cases,
}
use airbar_finance.Prelude.Text.{Text, same, same_iff}
use airbar_finance.Domain.Idempotency.{Record, Snapshot, Status, processing, completed}
use airbar_finance.Idempotency.Repository.{is_processing, in_flight, set_completed}
use airbar_finance.Idempotency.Phases.{given, phase_of_row, phase, at_key}

pub Status-cases : (s : Status) → (s ≡ processing) ⊎ (s ≡ completed)
Status-cases processing = inl refl
Status-cases completed = inr refl

module _ (key : Text) (snapshot : Snapshot) (now : ℕ) where
  row_completed :
      (row : Record)
      → same row.key key ≡ true
      → phase_of_row
          (set_completed key snapshot now row).status
          (set_completed key snapshot now row).response_snapshot
        ≡ given snapshot (phase_of_row row.status row.response_snapshot)
  unfolding set_completed in_flight is_processing
  row_completed row h = elim (Status-cases row.status) [
    | inl e ↦ rw h (rw e refl)
    | inr e ↦ rw h (rw e refl)
  ]

  row_kept : (row : Record) → same row.key key ≡ false → set_completed key snapshot now row ≡ row
  unfolding set_completed in_flight
  row_kept row h = rw h refl

  row_key : (row : Record) → (set_completed key snapshot now row).key ≡ row.key
  unfolding set_completed
  row_key row = elim (Bool-cases (in_flight key row)) [ inl e ↦ rw e refl | inr e ↦ rw e refl ]

  pub phase-completed :
      (rows : List Record) (k : Text)
      → phase k (map (set_completed key snapshot now) rows)
        ≡ at_key key k (given snapshot) (phase k rows)
  phase-completed [] k = elim (Bool-cases (same key k)) [ inl e ↦ rw e refl | inr e ↦ rw e refl ]
  phase-completed (row ∷ rows) k = elim (Bool-cases (same row.key k)) [
    | inr e ↦ rw (row_key row, e) (phase-completed rows k)
    | inl e ↦ elim (Bool-cases (same key k)) [
      | inl f ↦
          let own : same row.key key ≡ true =
            (same_iff row.key key).1 ((same_iff row.key k).0 e ∙ sym ((same_iff key k).0 f)) in
          rw (row_key row, e, f) (row_completed row own)
      | inr f ↦
          let other : same row.key key ≡ false = elim (Bool-cases (same row.key key)) [
            | inl g ↦ cc (f, rw ((same_iff row.key key).0 g) at e)
            | inr g ↦ g
          ] in
          rw (row_kept row other, e, f) refl
    ]
  ]
