-- ===== src/Idempotency/Exclusion/Counts.antt =====
-- How many records have a key, and how many of them are in flight, after each statement.
use airbar_finance.Prelude.{
  ℕ, ◌+◌, ◌≤◌, ◌≡◌, refl, Bool, true, false, List, [], ◌∷◌, ◌++◌, map, any, inl, inr, arith,
  Bool-cases,
}
use airbar_finance.Prelude.Text.{Text, same, same_iff}
use airbar_finance.Domain.Idempotency.{Record, Snapshot}
use airbar_finance.Idempotency.Repository.{
  is_processing, in_flight, set_completed, without_processing,
}

abbrev pub one_if : Bool → ℕ
one_if true = 1
one_if false = 0

-- How often a key occurs.
abbrev pub count : Text → List Text → ℕ
count key [] = 0
count key (k ∷ keys) = one_if (same k key) + count key keys

abbrev pub copies : Text → List Record → ℕ
copies key [] = 0
copies key (row ∷ rows) = one_if (same row.key key) + copies key rows

abbrev pub in_flights : Text → List Record → ℕ
in_flights key [] = 0
in_flights key (row ∷ rows) = one_if (in_flight key row) + in_flights key rows

pub in_flights-copies : (key : Text) (rows : List Record) → in_flights key rows ≤ copies key rows
in_flights-copies key [] = omega arith
in_flights-copies key (row ∷ rows) = omega (arith, one row, in_flights-copies key rows)
  where
    one : (row : Record) → one_if (in_flight key row) ≤ one_if (same row.key key)
    one row = unfold in_flight in ground arith

pub count-middle :
    (key k : Text) (before behind : List Text)
    → count key (before ++ (k ∷ behind)) ≡ one_if (same k key) + count key (before ++ behind)
count-middle key k [] behind = refl
count-middle key k (x ∷ before) behind = omega (arith, count-middle key k before behind)

pub copies-append :
    (key : Text) (rows : List Record) (row : Record)
    → copies key (rows ++ (row ∷ [])) ≡ copies key rows + one_if (same row.key key)
copies-append key [] row = omega arith
copies-append key (r ∷ rows) row = omega (arith, copies-append key rows row)

pub in_flights-append :
    (key : Text) (rows : List Record) (row : Record)
    → in_flights key (rows ++ (row ∷ [])) ≡ in_flights key rows + one_if (in_flight key row)
in_flights-append key [] row = omega arith
in_flights-append key (r ∷ rows) row = omega (arith, in_flights-append key rows row)

pub copies-none :
    (key : Text) (rows : List Record) → any (λ r. same r.key key) rows ≡ false → copies key rows ≡ 0
copies-none key [] h = refl
copies-none key (row ∷ rows) h = elim (Bool-cases (same row.key key)) [
  | inl e ↦ cc (rw e at h)
  | inr e ↦ rw e (omega (arith, copies-none key rows (rw e at h)))
]

module _ (key : Text) (snapshot : Snapshot) (now : ℕ) where
  set_completed_key : (row : Record) → (set_completed key snapshot now row).key ≡ row.key
  unfolding set_completed
  set_completed_key row = elim (Bool-cases (in_flight key row)) [
    | inl e ↦ rw e refl
    | inr e ↦ rw e refl
  ]

  pub copies-completed :
      (k : Text) (rows : List Record)
      → copies k (map (set_completed key snapshot now) rows) ≡ copies k rows
  copies-completed k [] = refl
  copies-completed k (row ∷ rows) = rw (set_completed_key row, copies-completed k rows) refl

  completed_one : (row : Record) → in_flight key (set_completed key snapshot now row) ≡ false
  unfolding set_completed in_flight is_processing
  completed_one row = elim (Bool-cases (in_flight key row)) [
    | inl e ↦ rw e (ground arith)
    | inr e ↦ rw e e
  ]

  pub in_flights-completed :
      (rows : List Record) → in_flights key (map (set_completed key snapshot now) rows) ≡ 0
  in_flights-completed [] = refl
  in_flights-completed (row ∷ rows) =
      rw (completed_one row) (omega (arith, in_flights-completed rows))

-- The key of a row in flight.
in_flight_key : (key : Text) (row : Record) → in_flight key row ≡ true → same row.key key ≡ true
unfolding in_flight
in_flight_key key row h = ground arith

not_in_flight : (key : Text) (row : Record) → same row.key key ≡ false → in_flight key row ≡ false
unfolding in_flight
not_in_flight key row h = ground arith

other_key :
    (key k : Text) (row : Record)
    → same key k ≡ false
    → in_flight key row ≡ true
    → same row.key k ≡ false
other_key key k row f h = rw ((same_iff row.key key).0 (in_flight_key key row h)) f

module _ (key k : Text) (f : same key k ≡ false) where
  completed_other :
      (snapshot : Snapshot) (now : ℕ) (row : Record)
      → in_flight k (set_completed key snapshot now row) ≡ in_flight k row
  unfolding set_completed
  completed_other snapshot now row = elim (Bool-cases (in_flight key row)) [
    | inl e ↦ rw e (let o = other_key key k row f e in rw (not_in_flight k row o) (rw o refl))
    | inr e ↦ rw e refl
  ]

  pub in_flights-completed_other :
      (snapshot : Snapshot) (now : ℕ) (rows : List Record)
      → in_flights k (map (set_completed key snapshot now) rows) ≡ in_flights k rows
  in_flights-completed_other snapshot now [] = refl
  in_flights-completed_other snapshot now (row ∷ rows) =
      rw (completed_other snapshot now row, in_flights-completed_other snapshot now rows) refl

  pub in_flights-deleted_other :
      (rows : List Record) → in_flights k (without_processing key rows) ≡ in_flights k rows
  in_flights-deleted_other [] = refl
  in_flights-deleted_other (row ∷ rows) = elim (Bool-cases (in_flight key row)) [
    | inl e ↦
        rw (e, not_in_flight k row (other_key key k row f e))
          (omega (arith, in_flights-deleted_other rows))
    | inr e ↦ rw (e, in_flights-deleted_other rows) refl
  ]

pub in_flights-deleted :
    (key : Text) (rows : List Record) → in_flights key (without_processing key rows) ≡ 0
in_flights-deleted key [] = refl
in_flights-deleted key (row ∷ rows) = elim (Bool-cases (in_flight key row)) [
  | inl e ↦ rw e (in_flights-deleted key rows)
  | inr e ↦ rw e (rw e (omega (arith, in_flights-deleted key rows)))
]

pub copies-deleted :
    (key k : Text) (rows : List Record) → copies k (without_processing key rows) ≤ copies k rows
copies-deleted key k [] = omega arith
copies-deleted key k (row ∷ rows) = elim (Bool-cases (in_flight key row)) [
  | inl e ↦ rw e (omega (arith, copies-deleted key k rows))
  | inr e ↦ rw e (omega (arith, copies-deleted key k rows))
]
