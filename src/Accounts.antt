-- ===== src/Accounts.antt =====
-- Registered accounts: internal/infrastructure/postgres/repository/wallet.go and credit.go
-- (EnsureAccount), internal/usecase/wallet and internal/usecase/credit (EnsureForLines, GetBalance).
pub mod Wallet
pub mod Credit
pub mod Keeps
pub mod Queries
pub mod Lookup
pub mod Listing
use airbar_finance.Prelude.{
  ℕ, Bool, true, false, ◌&&◌, Option, none, some, List, [], ◌∷◌, ◌++◌, find, any, if◌then◌else◌,
}
use airbar_finance.Prelude.Text.{Text, same}
use airbar_finance.Domain.Errors.{DatabaseError, unique_violation}
use airbar_finance.Domain.Account.{Account}
use airbar_finance.Domain.Ledger.{EntryLine}
use airbar_finance.Ledger.Account.{AccountCode}
use airbar_finance.Store.World.{M, ◌>>=◌, ◌>>◌, pure}

-- The row that INSERT … ON CONFLICT (user_id, currency) DO UPDATE … RETURNING gives, and the table
-- after it: an existing row stays as it is. Account codes are unique too.
pub data Upserted : Type 0 where
  kept : Account → Upserted
  inserted : Upserted
  code_taken : Upserted

unfoldable pub upsert : Account → List Account → Upserted
upsert account rows =
    elim (find (λ r. same r.user_id account.user_id && same r.currency account.currency) rows) [
      | some row ↦ kept row
      | none ↦
          if any (λ r. same r.account_code account.account_code) rows then code_taken else inserted
    ]

-- The loop of EnsureForLines, over the ids that it has seen.
unfoldable pub ensure_each :
    (AccountCode → Option Text) → (Text → M Account) → List Text → List EntryLine → M (Unit {0})
ensure_each parse ensure seen [] = pure tt
ensure_each parse ensure seen (line ∷ lines) = elim (parse line.account_code) [
  | none ↦ ensure_each parse ensure seen lines
  | some user_id ↦ elim (any (same user_id) seen) [
    | true ↦ ensure_each parse ensure seen lines
    | false ↦ ensure user_id >> ensure_each parse ensure (user_id ∷ seen) lines
  ]
]
