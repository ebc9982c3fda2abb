-- ===== src/Store/World.antt =====
-- The tables of internal/infrastructure/postgres/migrations, the state that a request runs in, and
-- actions on it. Requests run one at a time.
use airbar_finance.Prelude.{ℕ, Bool, true, false, Option, List}
use airbar_finance.Prelude.Int.{ℤ}
use airbar_finance.Prelude.Text.{Text}
use airbar_finance.Domain.Errors.{Error}
use airbar_finance.Domain.Audit.{Payload}
use airbar_finance.Domain.Gateway.{RequestInput, RequestResult}
use airbar_finance.Domain.Idempotency.{Snapshot}
use airbar_finance.Domain.Ledger
use airbar_finance.Domain.Escrow
use airbar_finance.Domain.Account
use airbar_finance.Domain.Credit
use airbar_finance.Domain.Payment
use airbar_finance.Domain.Withdrawal
use airbar_finance.Domain.Audit
use airbar_finance.Domain.Provider
use airbar_finance.Domain.Reconciliation
use airbar_finance.Domain.Idempotency

pub record Db : Type 0 where
  pub journals : List Ledger.JournalRow
  pub entries : List Ledger.Entry
  pub wallet_accounts : List Account.Account
  pub credit_accounts : List Account.Account
  pub escrows : List Escrow.Escrow
  pub grants : List Credit.Grant
  pub orders : List Payment.Order
  pub withdrawals : List Withdrawal.Withdrawal
  pub finance_events : List Audit.Event
  pub provider_events : List Provider.Event
  pub runs : List Reconciliation.Run
  pub idempotency_records : List Idempotency.Record

-- What the program takes from outside. `tick` counts the calls to the database and to Redis: `fails`
-- says which of them fail, `evicted` which reads of Redis find nothing, `uuid` and `clock` are
-- uuid.NewString and the time before a call. `float_fee` is `int64(float64(amount) * percent / 100.0)`
-- at the configured percentage, `public_base_url` is configured too. `psp_request` and `psp_verify`
-- are what the payment provider answers to this request's one call, with `none` for an error. The
-- last four are sha256 in hexadecimal, strings.TrimSpace, strings.ToUpper and json.Marshal of a map.
pub record Env : Type 0 where
  pub fails : ℕ → Bool
  pub evicted : ℕ → Bool
  pub uuid : ℕ → Text
  pub clock : ℕ → ℕ
  pub float_fee : ℤ → ℤ
  pub public_base_url : Text
  pub psp_request : RequestInput → Option RequestResult
  pub psp_verify : Text → Option ℤ
  pub sha256_hex : Text → Text
  pub trim_space : Text → Text
  pub to_upper : Text → Text
  pub json_marshal : Payload → Text

-- `tx` is what the open transaction sees; `broken` says that a statement of it has failed, after which
-- PostgreSQL refuses its further statements and its commit. `cache` is what Redis holds of responses,
-- the newest first.
pub record World : Type 0 where
  pub committed : Db
  pub tx : Option Db
  pub broken : Bool
  pub tick : ℕ
  pub cache : List (Text × Snapshot)

-- Go's `(value, error)`: a value or an error.
pub data Result {ℓ} (A : Type ℓ) : Type ℓ where
  ok : A → Result A
  err : Error → Result A

abbrev pub M : Type 0 → Type 0
M A = World → Result A × World

module _ {A : Type 0} where
  unfoldable pub pure : A → M A
  pure a w = (ok a, w)

  unfoldable pub fail : Error → M A
  fail e w = (err e, w)

  unfoldable pub lift : Result A → M A
  lift r w = (r, w)

  abbrev pub remap : (Error → Error) → Result A → Result A
  remap f (ok a) = ok a
  remap f (err e) = err (f e)

  -- `if err := m; err != nil { return f(err) }`
  unfoldable pub map_error : (Error → Error) → M A → M A
  map_error f m w = let (r, w') = m w in (remap f r, w')

  -- `_ = m`: the error is dropped.
  unfoldable pub ignore : M A → M (Unit {0})
  ignore m w = (ok tt, (m w).1)

-- `if cond { return err }`
unfoldable pub fail_if : Bool → Error → M (Unit {0})
fail_if c e w = (elim c [ true ↦ err e | false ↦ ok tt ], w)

module _ {A B : Type 0} where
  abbrev pub continue : Result A → (A → M B) → M B
  continue (ok a) f w = f a w
  continue (err e) f w = (err e, w)

  infixl 5 ◌>>=◌ ◌>>◌
  -- Opening this opens the other combinators too.
  unfoldable pub ◌>>=◌ : M A → (A → M B) → M B
  unfolding pure fail lift map_error ignore fail_if
  ◌>>=◌ m f w = let (r, w') = m w in continue r f w'

  abbrev pub ◌>>◌ : M A → M B → M B
  m >> k = m >>= λ _. k
