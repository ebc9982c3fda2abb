-- ===== src/Payment/Settled.antt =====
-- A confirmed order stays confirmed, whatever use cases of payments run.
pub mod Access
pub mod Calls
use airbar_finance.Prelude.{
  ℕ, ◌≡◌, refl, ◌∙◌, sym, ap, Bool, true, false, ◌&&◌, ◌||◌, not, Option, none, some, List, [], ◌∷◌,
  ◌++◌, map, find, any, All, All-append, inl, inr, arith, Bool-cases, if◌then◌else◌,
}
use airbar_finance.Prelude.Int.{ℤ, pos, leb_ℤ}
use airbar_finance.Prelude.Text.{Text, same, same_iff, is_empty}
use airbar_finance.Domain.Payment.{Order}
use airbar_finance.Domain.Provider.{Event}
use airbar_finance.Store.World.{Db}
use airbar_finance.Store.Sql.{done, violates}
use airbar_finance.Store.Keeps.{Preserves}
use airbar_finance.Store.Yields.{Finds}
use airbar_finance.Payment.Repository.{
  insert_order, select_order, select_by_authority, set_columns, update_order, is_confirmed,
}
use airbar_finance.Payment.Events.{insert_event}

-- If the order has this id, it is confirmed.
abbrev pub Agrees : Text → Order → Type 0
Agrees id order = same order.id id ≡ true → is_confirmed order.status ≡ true

abbrev pub Others : Text → Order → Type 0
Others id order = same order.id id ≡ false

-- The order with this id is there, and is confirmed.
abbrev pub IsSettled : Text → Db → Type 0
IsSettled id d = (any (λ o. same o.id id) d.orders ≡ true) × All (Agrees id) d.orders

any-append : (p : Order → Bool) (xs ys : List Order) → any p xs ≡ true → any p (xs ++ ys) ≡ true
any-append p [] ys h = cc h
any-append p (x ∷ xs) ys h = elim (Bool-cases (p x)) [
  | inl e ↦ rw e refl
  | inr e ↦ rw e (any-append p xs ys (rw e at h))
]

-- An id that no order has is none that some order has.
fresh_id :
    (id new : Text) (orders : List Order)
    → any (λ o. same o.id id) orders ≡ true
    → any (λ o. same o.id new) orders ≡ false
    → same new id ≡ false
fresh_id id new orders h f = elim (Bool-cases (same new id)) [
  | inl e ↦ cc (rw ((same_iff new id).0 e) at f, h)
  | inr e ↦ e
]

vacuous : (id : Text) (order : Order) → Others id order → Agrees id order
vacuous id order f e = cc (f, e)

module _ (id : Text) where
  insert_order-IsSettled : (row : Order) → Preserves (IsSettled id) (insert_order row)
  unfolding insert_order
  insert_order-IsSettled row = record {
    at = λ d h. elim (Bool-cases (leb_ℤ row.amount (pos 0))) [
      | inl bad ↦ rw bad h
      | inr good ↦ elim (Bool-cases (any (λ r. same r.id row.id) d.orders)) [
        | inl taken ↦ rw (good, taken) h
        | inr free ↦
            rw (good, free)
              (
                any-append _ d.orders _ h.0,
                All-append (Agrees id) d.orders _ h.1
                    ((λ e. absurd (ne (fresh_id id row.id d.orders h.0 free) e)), tt),
              )
      ]
    ];
  }
    where
      ne : {b : Bool} → b ≡ false → b ≡ true → ⊥
      ne f t = cc (f, t)

  insert_order-Others :
      (row : Order) (d : Db) → IsSettled id d → Finds (λ u. Others id row) (insert_order row d)
  unfolding insert_order
  insert_order-Others row d h = elim (Bool-cases (leb_ℤ row.amount (pos 0))) [
    | inl bad ↦ rw bad tt
    | inr good ↦ elim (Bool-cases (any (λ r. same r.id row.id) d.orders)) [
      | inl taken ↦ rw (good, taken) tt
      | inr free ↦ rw (good, free) (fresh_id id row.id d.orders h.0 free)
    ]
  ]

  set_columns-Agrees :
      (order : Order) (now : ℕ) (row : Order)
      → Agrees id order
      → Agrees id row
      → Agrees id (set_columns order now row)
  unfolding set_columns
  set_columns-Agrees order now row h k = elim (Bool-cases (same row.id order.id)) [
    | inl e ↦ rw e λ t. h (rw (sym ((same_iff row.id order.id).0 e)) t)
    | inr e ↦ rw e k
  ]

  set_columns_id : (order : Order) (now : ℕ) (row : Order) → (set_columns order now row).id ≡ row.id
  unfolding set_columns
  set_columns_id order now row = elim (Bool-cases (same row.id order.id)) [
    | inl e ↦ rw e refl
    | inr e ↦ rw e refl
  ]

  updated-any :
      (order : Order) (now : ℕ) (rows : List Order)
      → any (λ o. same o.id id) rows ≡ true
      → any (λ o. same o.id id) (map (set_columns order now) rows) ≡ true
  updated-any order now [] h = h
  updated-any order now (row ∷ rows) h = elim (Bool-cases (same row.id id)) [
    | inl e ↦ rw (set_columns_id order now row, e) refl
    | inr e ↦ rw (set_columns_id order now row, e) (updated-any order now rows (rw e at h))
  ]

  updated-All :
      (order : Order) (now : ℕ) (rows : List Order)
      → Agrees id order
      → All (Agrees id) rows
      → All (Agrees id) (map (set_columns order now) rows)
  updated-All order now [] h k = tt
  updated-All order now (row ∷ rows) h (one, rest) =
      (set_columns-Agrees order now row h one, updated-All order now rows h rest)

  update_order-IsSettled :
      (order : Order) (now : ℕ)
      → Agrees id order
      → Preserves (IsSettled id) (update_order order now)
  unfolding update_order
  update_order-IsSettled order now a = record {
    at = λ d h. elim (Bool-cases (any (λ r. same r.id order.id) d.orders)) [
      | inl known ↦
          rw known (updated-any order now d.orders h.0, updated-All order now d.orders a h.1)
      | inr missing ↦ rw missing h
    ];
  }

  insert_event-IsSettled : (row : Event) → Preserves (IsSettled id) (insert_event row)
  unfolding insert_event
  insert_event-IsSettled row = record {
    at = λ d h.
        elim (Bool-cases
          (any (λ r. same r.idempotency_key row.idempotency_key) d.provider_events)) [
            | inl old ↦ rw old h
            | inr new ↦
                elim (Bool-cases (
                  not (
                    is_empty row.payment_order_id
                    || any (λ o. same o.id row.payment_order_id) d.orders))) [
                      | inl foreign ↦ rw (new, foreign) h
                      | inr known ↦ rw (new, known) h
                    ]
          ];
  }

-- A row that is found satisfies what all rows do.
abbrev pub OfSome : (Order → Type 0) → Option Order → Type 0
OfSome R none = Unit
OfSome R (some order) = R order

find-All :
    (R : Order → Type 0) (p : Order → Bool) (rows : List Order)
    → All R rows
    → OfSome R (find p rows)
find-All R p [] h = tt
find-All R p (row ∷ rows) (one, rest) = elim (Bool-cases (p row)) [
  | inl e ↦ rw e one
  | inr e ↦ rw e (find-All R p rows rest)
]

module _ (id : Text) where
  select_order-Agrees :
      (key : Text) (d : Db) → IsSettled id d → Finds (OfSome (Agrees id)) (select_order key d)
  unfolding select_order
  select_order-Agrees key d h = find-All (Agrees id) _ d.orders h.1

  select_by_authority-Agrees :
      (key : Text) (d : Db)
      → IsSettled id d
      → Finds (OfSome (Agrees id)) (select_by_authority key d)
  unfolding select_by_authority
  select_by_authority-Agrees key d h = find-All (Agrees id) _ d.orders h.1
