-- ===== src/Escrow/Repository/Keeps.antt =====
-- What the repository of escrows keeps.
use airbar_finance.Prelude.{ℕ, ◌≢◌, ◌++◌, [], ◌∷◌, map, inl, inr, Bool-cases, any}
use airbar_finance.Prelude.Int.{pos, leb_ℤ, ltb_ℤ}
use airbar_finance.Prelude.Text.{Text, same}
use airbar_finance.Domain.Escrow.{Escrow, locked}
use airbar_finance.Store.World.{Db, Env}
use airbar_finance.Store.Keeps.{Keeps, Preserves, keeps_rules}
use airbar_finance.Escrow.Repository.{
  inserted_row, set_columns, insert_escrow, create, select_escrow, get_by_shipment_id,
  update_escrow, update,
}

-- A property that is kept by inserting and by updating rows that are not LOCKED.
module _ {P : Db → Type 0}
    (inserts : (e : Escrow) (d : Db)
      → e.status ≢ locked
      → P d
      → P (record d { escrows = d.escrows ++ (inserted_row e ∷ []) }))
    (updates : (e : Escrow) (now : ℕ) (d : Db)
      → e.status ≢ locked
      → P d
      → P (record d { escrows = map (set_columns e now) d.escrows })) where
  insert_escrow-Preserves : (e : Escrow) → e.status ≢ locked → Preserves P (insert_escrow e)
  unfolding insert_escrow
  insert_escrow-Preserves e n = record {
    at = λ d h. elim (Bool-cases (leb_ℤ e.amount (pos 0))) [
      | inl bad ↦ rw bad h
      | inr good ↦ elim (Bool-cases (any (λ r. same r.shipment_id e.shipment_id) d.escrows)) [
        | inl taken ↦ rw (good, taken) h
        | inr free ↦ rw (good, free) (inserts e d n h)
      ]
    ];
  }

  update_escrow-Preserves :
      (e : Escrow) (now : ℕ) → e.status ≢ locked → Preserves P (update_escrow e now)
  unfolding update_escrow
  update_escrow-Preserves e now n = record {
    at = λ d h. elim (Bool-cases (any (λ r. same r.id e.id) d.escrows)) [
      | inl known ↦ elim (Bool-cases (ltb_ℤ e.promo_credit_funded (pos 0))) [
        | inl bad ↦ rw (known, bad) h
        | inr good ↦ rw (known, good) (updates e now d n h)
      ]
      | inr missing ↦ rw missing h
    ];
  }

  pub create-Keeps : (env : Env) (e : Escrow) → e.status ≢ locked → Keeps P (create env e)
  unfolding create
  create-Keeps env e n = search (keeps_rules, insert_escrow-Preserves) depth 10

  pub update-Keeps : (env : Env) (e : Escrow) → e.status ≢ locked → Keeps P (update env e)
  unfolding update
  update-Keeps env e n = search (keeps_rules, update_escrow-Preserves) depth 8

-- Reading keeps every property.
module _ {P : Db → Type 0} where
  select_escrow-Preserves : (s : Text) → Preserves P (select_escrow s)
  unfolding select_escrow
  select_escrow-Preserves s = record { at = λ d h. h }

  pub get_by_shipment_id-Keeps : (env : Env) (s : Text) → Keeps P (get_by_shipment_id env s)
  unfolding get_by_shipment_id
  get_by_shipment_id-Keeps env s = search (keeps_rules, select_escrow-Preserves) depth 8
