-- ===== src/Idempotency/Phases/Deleted.antt =====
-- What deleting a record in flight makes of the phases.
use mathlib.Core.Path.{subst}
use airbar_finance.Prelude.{
  sym, ◌∙◌, ◌+◌, ◌≡◌, refl, ◌≤◌, true, false, List, [], ◌∷◌, inl, inr, arith, Bool-cases,
}
use airbar_finance.Prelude.Text.{Text, same, same_iff}
use airbar_finance.Domain.Idempotency.{Record, processing}
use airbar_finance.Idempotency.Repository.{is_processing, in_flight, without_processing}
use airbar_finance.Idempotency.Exclusion.Counts.{copies, copies-deleted}
use airbar_finance.Idempotency.Phases.{free, released, phase_of_row, phase, at_key}
use airbar_finance.Idempotency.Phases.Completed.{Status-cases}

no_copies : (key : Text) (rows : List Record) → copies key rows ≤ 0 → phase key rows ≡ free
no_copies key [] h = refl
no_copies key (row ∷ rows) h = elim (Bool-cases (same row.key key)) [
  | inl e ↦ absurd (some_copy (rw e at h))
  | inr e ↦ rw e (no_copies key rows (omega (arith, h)))
]
  where
    some_copy : 1 + copies key rows ≤ 0 → ⊥
    some_copy h = omega (arith, h)

module _ (key : Text) where
  row_open :
      (row : Record)
      → in_flight key row ≡ true
      → (same row.key key ≡ true) × (row.status ≡ processing)
  unfolding in_flight is_processing
  row_open row h = elim (Bool-cases (same row.key key)) [
    | inl e ↦ elim (Status-cases row.status) [ inl f ↦ (e, f) | inr f ↦ cc (rw (e, f) at h) ]
    | inr e ↦ cc (rw e at h)
  ]

  row_stays :
      (row : Record)
      → in_flight key row ≡ false
      → same row.key key ≡ true
      → released (phase_of_row row.status row.response_snapshot)
        ≡ phase_of_row row.status row.response_snapshot
  unfolding in_flight is_processing
  row_stays row h e = elim (Status-cases row.status) [
    | inl f ↦ cc (rw (e, f) at h)
    | inr f ↦ rw f refl
  ]

  pub phase-deleted :
      (rows : List Record) (k : Text)
      → copies key rows ≤ 1
      → phase k (without_processing key rows) ≡ at_key key k released (phase k rows)
  phase-deleted [] k h = elim (Bool-cases (same key k)) [ inl e ↦ rw e refl | inr e ↦ rw e refl ]
  phase-deleted (row ∷ rows) k h = elim (Bool-cases (in_flight key row)) [
    | inl o ↦
        let (own, unfinished) = row_open row o in
        let rest : copies key rows ≤ 0 = last_copy row rows own h in
        elim (Bool-cases (same key k)) [
          | inl f ↦
              let of_k : same row.key k ≡ true = rw (sym ((same_iff key k).0 f)) own in
              rw (o, f, of_k, unfinished)
                (subst (λ x. phase x (without_processing key rows) ≡ free) ((same_iff key k).0 f)
                  (no_copies key (without_processing key rows)
                    (omega (arith, rest, copies-deleted key key rows))))
          | inr f ↦
              let not_k : same row.key k ≡ false = rw ((same_iff row.key key).0 own) f in
              rw (o, not_k) (phase-deleted rows k (omega (arith, rest)))
        ]
    | inr o ↦
        let rest : copies key rows ≤ 1 = omega (arith, h) in
        elim (Bool-cases (same row.key k)) [
          | inr e ↦ rw (o, e) (phase-deleted rows k rest)
          | inl e ↦ elim (Bool-cases (same key k)) [
            | inl f ↦
                let own : same row.key key ≡ true =
                  (same_iff row.key key).1
                    ((same_iff row.key k).0 e ∙ sym ((same_iff key k).0 f)) in
                rw (o, e, f) (sym (row_stays row o own))
            | inr f ↦ rw (o, e, f) refl
          ]
        ]
  ]
    where
      last_copy :
          (row : Record) (rows : List Record)
          → same row.key key ≡ true
          → copies key (row ∷ rows) ≤ 1
          → copies key rows ≤ 0
      last_copy row rows e h = omega (arith, rw e at h)
