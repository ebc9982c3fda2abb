-- ===== src/System/Unlocked.antt =====
-- Requests and the status LOCKED of internal/domain/escrow/escrow.go.
use airbar_finance.Prelude.{ℕ, ◌≢◌, List, [], ◌∷◌, map, All, All-append, inl, inr, Bool-cases}
use airbar_finance.Prelude.Text.{same}
use airbar_finance.Domain.Escrow.{Escrow, locked}
use airbar_finance.Store.World.{Db}
use airbar_finance.Store.Sql.{idle}
use airbar_finance.Ledger.Post.Ignores.{Ignores, unposted-Keeps}
use airbar_finance.Payment.Balanced.Statements.{IgnoresPayments}
use airbar_finance.Escrow.Repository.{inserted_row, set_columns}
use airbar_finance.System.{Reachable, migrated, request}
use airbar_finance.System.Balanced.{perform-Keeps, payments_kept}

abbrev pub IsUnlocked : Db → Type 0
IsUnlocked d = All (λ e. e.status ≢ locked) d.escrows

updated-unlocked :
    (e : Escrow) (now : ℕ) (rows : List Escrow)
    → e.status ≢ locked
    → All (λ r. r.status ≢ locked) rows
    → All (λ r. r.status ≢ locked) (map (set_columns e now) rows)
unfolding set_columns
updated-unlocked e now [] n h = tt
updated-unlocked e now (row ∷ rows) n (one, rest) = (
  elim (Bool-cases (same row.id e.id)) [ inl known ↦ rw known n | inr other ↦ rw other one ],
  updated-unlocked e now rows n rest,
)

IsUnlocked-Ignores : Ignores IsUnlocked
unfolding inserted_row
IsUnlocked-Ignores = record {
  wallet_accounts = λ rows d h. h;
  credit_accounts = λ rows d h. h;
  escrow_insertion = λ e d n h. All-append (λ r. r.status ≢ locked) d.escrows _ h (n, tt);
  escrow_update = λ e now d n h. updated-unlocked e now d.escrows n h;
  grants = λ rows d h. h;
  withdrawals = λ rows d h. h;
  finance_events = λ rows d h. h;
  runs = λ rows d h. h;
  posting =
      λ env input narrow. unposted-Keeps (λ rows d h. h) (λ rows d h. h) (λ rows d h. h) env input;
}

IsUnlocked-IgnoresPayments : IgnoresPayments IsUnlocked
IsUnlocked-IgnoresPayments = record { orders = λ rows d h. h; provider_events = λ rows d h. h }

-- Whatever requests to the modelled use cases have been served, and whichever of their database
-- calls failed, no escrow in the tables has the status LOCKED.
pub Reachable-IsUnlocked : (d : Db) → Reachable d → IsUnlocked d
Reachable-IsUnlocked _ migrated = tt
Reachable-IsUnlocked _ (request env call d r) =
    let h = Reachable-IsUnlocked d r in
    ((perform-Keeps IsUnlocked-Ignores (payments_kept IsUnlocked-Ignores IsUnlocked-IgnoresPayments)
        env call).at
      (idle d) (record { of_committed = h; of_view = tt })).of_committed
