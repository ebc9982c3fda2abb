-- ===== src/Idempotency/Phases.antt =====
-- What the records say of a key, and the life of a key that the repository's statements implement.
pub mod Completed
pub mod Deleted
pub mod Refines
use mathlib.Core.Path.{subst}
use airbar_finance.Prelude.{
  ap, sym, ◌∙◌, ◌+◌, ◌⊎◌, ℕ, ◌≡◌, refl, ◌≤◌, Bool, true, false, ◌&&◌, Option, none, some, List, [],
  ◌∷◌, ◌++◌, map, any, inl, inr, arith, Bool-cases, if◌then◌else◌,
}
use airbar_finance.Prelude.Text.{Text, same, same_iff, same_refl}
use airbar_finance.Domain.Idempotency.{Record, Snapshot, Status, processing, completed}
use airbar_finance.Store.World.{Db}
use airbar_finance.Store.Sql.{done, after}
use airbar_finance.Store.Yields.{Finds}
use airbar_finance.Idempotency.Repository.{
  insert_processing, is_processing, in_flight, set_completed, update_completed, without_processing,
  delete_in_flight,
}
use airbar_finance.Idempotency.Exclusion.Counts.{copies, copies-deleted}

-- A key is free, or a request holds it, or a response is stored under it.
pub data Phase : Type 0 where
  free held : Phase
  answered : Option Snapshot → Phase

abbrev pub is_free : Phase → Bool
is_free free = true
is_free held = false
is_free (answered snapshot) = false

abbrev pub taken : Phase → Phase
taken free = held
taken held = held
taken (answered snapshot) = answered snapshot

abbrev pub given : Snapshot → Phase → Phase
given snapshot free = free
given snapshot held = answered (some snapshot)
given snapshot (answered old) = answered old

abbrev pub released : Phase → Phase
released free = free
released held = free
released (answered snapshot) = answered snapshot

abbrev pub phase_of_row : Status → Option Snapshot → Phase
phase_of_row processing snapshot = held
phase_of_row completed snapshot = answered snapshot

abbrev pub phase : Text → List Record → Phase
phase key [] = free
phase key (row ∷ rows) =
    if same row.key key then phase_of_row row.status row.response_snapshot else phase key rows

abbrev pub in_progress : Record → ℕ → Record
in_progress row now = record row {
  status = processing;
  response_snapshot = none;
  created_at = now;
  completed_at = none;
}

-- The phase of one key changes, the others' stay.
abbrev pub at_key : Text → Text → (Phase → Phase) → Phase → Phase
at_key key k step p = if same key k then step p else p

pub phase-known :
    (key : Text) (rows : List Record)
    → any (λ r. same r.key key) rows ≡ true
    → is_free (phase key rows) ≡ false
phase-known key [] h = cc h
phase-known key (row ∷ rows) h = elim (Bool-cases (same row.key key)) [
  | inl e ↦ rw e (row_taken row.status row.response_snapshot)
  | inr e ↦ rw e (phase-known key rows (rw e at h))
]
  where
    row_taken : (s : Status) (o : Option Snapshot) → is_free (phase_of_row s o) ≡ false
    row_taken processing o = refl
    row_taken completed o = refl

pub phase-none :
    (key : Text) (rows : List Record)
    → any (λ r. same r.key key) rows ≡ false
    → phase key rows ≡ free
phase-none key [] h = refl
phase-none key (row ∷ rows) h = elim (Bool-cases (same row.key key)) [
  | inl e ↦ cc (rw e at h)
  | inr e ↦ rw e (phase-none key rows (rw e at h))
]

taken_again : (p : Phase) → is_free p ≡ false → taken p ≡ p
taken_again free h = cc h
taken_again held h = refl
taken_again (answered s) h = refl

phase-append_other :
    (k : Text) (rows : List Record) (row : Record)
    → same row.key k ≡ false
    → phase k (rows ++ (row ∷ [])) ≡ phase k rows
phase-append_other k [] row f = rw f refl
phase-append_other k (r ∷ rows) row f = rw (phase-append_other k rows row f) refl

phase-append_own :
    (rows : List Record) (row : Record)
    → any (λ r. same r.key row.key) rows ≡ false
    → same row.key row.key ≡ true
    → phase row.key (rows ++ (row ∷ [])) ≡ phase_of_row row.status row.response_snapshot
phase-append_own [] row h s = rw s refl
phase-append_own (r ∷ rows) row h s = elim (Bool-cases (same r.key row.key)) [
  | inl e ↦ cc (rw e at h)
  | inr e ↦ rw e (phase-append_own rows row (rw e at h) s)
]

phase-inserted_own :
    (row : Record) (now : ℕ) (d : Db)
    → phase row.key (after (insert_processing row now d) d).idempotency_records
      ≡ taken (phase row.key d.idempotency_records)
unfolding insert_processing
phase-inserted_own row now d =
    elim (Bool-cases (any (λ r. same r.key row.key) d.idempotency_records)) [
      | inl known ↦ rw known (sym (taken_again _ (phase-known row.key d.idempotency_records known)))
      | inr new ↦ rw new (
          phase-append_own d.idempotency_records (in_progress row now) new (same_refl row.key)
          ∙ sym (ap taken (phase-none row.key d.idempotency_records new)))
    ]

pub phase-inserted :
    (row : Record) (now : ℕ) (d : Db) (k : Text)
    → phase k (after (insert_processing row now d) d).idempotency_records
      ≡ at_key row.key k taken (phase k d.idempotency_records)
unfolding insert_processing
phase-inserted row now d k = elim (Bool-cases (same row.key k)) [
  | inl e ↦ rw e (
      subst
        (λ key.
          phase key (after (insert_processing row now d) d).idempotency_records
          ≡ taken (phase key d.idempotency_records))
        ((same_iff row.key k).0 e) (phase-inserted_own row now d))
  | inr e ↦ rw e (elim (Bool-cases (any (λ r. same r.key row.key) d.idempotency_records)) [
    | inl known ↦ rw known refl
    | inr new ↦ rw new (phase-append_other k d.idempotency_records (in_progress row now) e)
  ])
]
