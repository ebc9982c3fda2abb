-- ===== src/Escrow/Repository/RoundTrip.antt =====
-- What is read back of the table of escrows after it was written.
use mathlib.Core.Option
use airbar_finance.Prelude.{
  ℕ, ◌≡◌, refl, true, false, Option, none, some, List, [], ◌∷◌, ◌++◌, find, any, map, inl, inr,
  Bool-cases, ◌∙◌, ap, sym,
}
use airbar_finance.Prelude.Int.{pos, ltb_ℤ}
use airbar_finance.Prelude.Text.{Text, same, same_refl}
use airbar_finance.Domain.Escrow.{Escrow}
use airbar_finance.Store.World.{Db}
use airbar_finance.Store.Sql.{done, after}
use airbar_finance.Escrow.Repository.{select_escrow, set_columns, update_escrow}

set_columns_shipment :
    (e : Escrow) (now : ℕ) (r : Escrow) → (set_columns e now r).shipment_id ≡ r.shipment_id
unfolding set_columns
set_columns_shipment e now r = elim (Bool-cases (same r.id e.id)) [
  | inl h ↦ rw h refl
  | inr h ↦ rw h refl
]

find-updated :
    (e : Escrow) (now : ℕ) (s : Text) (rows : List Escrow) (r : Escrow)
    → find (λ x. same x.shipment_id s) rows ≡ some r
    → find (λ x. same x.shipment_id s) (map (set_columns e now) rows) ≡ some (set_columns e now r)
find-updated e now s [] r h = cc h
find-updated e now s (x ∷ rows) r h =
    let kept = ap (λ t. same t s) (set_columns_shipment e now x) in
    elim (Bool-cases (same x.shipment_id s)) [
      | inl hit ↦ rw (kept ∙ hit) (ap (Option.map (set_columns e now)) (rw hit at h))
      | inr miss ↦ rw (kept ∙ miss) (find-updated e now s rows r (rw miss at h))
    ]

pub find-appended :
    (row : Escrow) (rows : List Escrow)
    → any (λ r. same r.shipment_id row.shipment_id) rows ≡ false
    → find (λ r. same r.shipment_id row.shipment_id) (rows ++ (row ∷ [])) ≡ some row
find-appended row [] h = rw (same_refl row.shipment_id) refl
find-appended row (x ∷ rows) h = elim (Bool-cases (same x.shipment_id row.shipment_id)) [
  | inl hit ↦ cc (rw hit at h)
  | inr miss ↦ rw miss (find-appended row rows (rw miss at h))
]

-- What a SELECT by shipment gives.
abbrev pub found : Text → Db → Option Escrow
found shipment_id d = find (λ r. same r.shipment_id shipment_id) d.escrows

none-any :
    (s : Text) (rows : List Escrow)
    → find (λ r. same r.shipment_id s) rows ≡ none
    → any (λ r. same r.shipment_id s) rows ≡ false
none-any s [] h = refl
none-any s (x ∷ rows) h = elim (Bool-cases (same x.shipment_id s)) [
  | inl hit ↦ cc (rw hit at h)
  | inr miss ↦ rw miss (none-any s rows (rw miss at h))
]

-- A row with this shipment and this id is among the rows.
found-any :
    (s : Text) (rows : List Escrow) (r : Escrow)
    → find (λ x. same x.shipment_id s) rows ≡ some r
    → any (λ x. same x.id r.id) rows ≡ true
found-any s [] r h = cc h
found-any s (x ∷ rows) r h = elim (Bool-cases (same x.shipment_id s)) [
  | inl hit ↦
      let first : x ≡ r = cc (rw hit at h) in
      rw (ap (λ y. same y.id r.id) first ∙ same_refl r.id) refl
  | inr miss ↦ elim (Bool-cases (same x.id r.id)) [
    | inl e ↦ rw e refl
    | inr e ↦ rw e (found-any s rows r (rw miss at h))
  ]
]

-- `e` is the stored row `r` with new values of the columns that the use cases change.
abbrev pub IsEditOf : Escrow → Escrow → Type 0
IsEditOf r e = e ≡ record r {
  status = e.status;
  payment_order_id = e.payment_order_id;
  funding_source = e.funding_source;
  promo_credit_funded = e.promo_credit_funded;
  funded_at = e.funded_at;
  released_at = e.released_at;
  refunded_at = e.refunded_at;
}

untouched :
    (e other : Escrow) (now : ℕ) → same other.id e.id ≡ false → set_columns e now other ≡ other
unfolding set_columns
untouched e other now apart = rw apart refl

edited :
    (r e : Escrow) (now : ℕ) → IsEditOf r e → set_columns e now r ≡ record e { updated_at = now }
unfolding set_columns
edited r e now h =
    rw (ap (λ x. same r.id x.id) h ∙ same_refl r.id)
      (ap {A = Escrow} (λ x. record x { updated_at = now }) (sym h))

-- When an escrow that was read by its shipment is changed in columns that the use cases change,
-- with a promotional part that is not negative, and is written back, the SELECT by its shipment
-- gives the changed escrow with the time of the update.
pub select-update :
    (r e : Escrow) (now : ℕ) (d : Db)
    → found r.shipment_id d ≡ some r
    → IsEditOf r e
    → ltb_ℤ e.promo_credit_funded (pos 0) ≡ false
    → select_escrow e.shipment_id (after (update_escrow e now d) d)
      ≡ done (some (record e { updated_at = now })) (after (update_escrow e now d) d)
unfolding update_escrow select_escrow
select-update r e now d h edit promo =
    let known : any (λ x. same x.id e.id) d.escrows ≡ true =
      ap (λ x. any (λ y. same y.id x.id) d.escrows) edit ∙ found-any r.shipment_id d.escrows r h in
    let own = ap (λ x. found x.shipment_id d) edit ∙ h in
    rw (known, promo)
      (ap (λ o. done o (record d { escrows = map (set_columns e now) d.escrows }))
        (find-updated e now e.shipment_id d.escrows r own ∙ ap some (edited r e now edit)))

-- A SELECT by shipment that gives an escrow gives the same escrow after the update of one with
-- another id, whether or not the update finds its row.
pub select_other-update :
    (e other : Escrow) (shipment_id : Text) (now : ℕ) (d : Db)
    → found shipment_id d ≡ some other
    → same other.id e.id ≡ false
    → select_escrow shipment_id (after (update_escrow e now d) d)
      ≡ done (some other) (after (update_escrow e now d) d)
unfolding update_escrow select_escrow
select_other-update e other shipment_id now d h apart =
    elim (Bool-cases (any (λ x. same x.id e.id) d.escrows)) [
      | inl known ↦ elim (Bool-cases (ltb_ℤ e.promo_credit_funded (pos 0))) [
        | inl bad ↦ rw (known, bad) (ap (λ o. done o d) h)
        | inr good ↦
            rw (known, good)
              (ap (λ o. done o (record d { escrows = map (set_columns e now) d.escrows }))
                (find-updated e now shipment_id d.escrows other h
                  ∙ ap some (untouched e other now apart)))
      ]
      | inr missing ↦ rw missing (ap (λ o. done o d) h)
    ]
