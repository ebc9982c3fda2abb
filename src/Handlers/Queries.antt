-- ===== src/Handlers/Queries.antt =====
-- internal/delivery/grpc/handlers/wallet.go, treasury.go and provider_event.go
use airbar_finance.Prelude.{ℕ, Bool, List, [], ◌∷◌, map}
use airbar_finance.Prelude.Int.{ℤ}
use airbar_finance.Prelude.Text.{Text}
use airbar_finance.Domain.Errors.{
  Error, status, internal, invalid_argument, treasury_unsupported_currency,
}
use airbar_finance.Domain.Provider.{Event}
use airbar_finance.Store.World.{Env, M, ◌>>=◌, pure, map_error}
use airbar_finance.Amounts.{format_amount}
use airbar_finance.Ledger.Like.{AccountEntry}
use airbar_finance.Accounts.Queries.{Wallet, get_wallet, list_wallet_transactions}
use airbar_finance.Payment.Events.{event_type_text, ListFilter, list_provider_events}
use airbar_finance.Treasury.{get_treasury_summary}
use airbar_finance.Handlers.Errors.{map_wallet_error}

pub record WalletResponse : Type 0 where
  pub user_id : Text
  pub currency : Text
  pub balance : Text
  pub account_code : Text

unfoldable pub to_wallet_response : Wallet → WalletResponse
to_wallet_response w = record {
  user_id = w.user_id;
  currency = w.currency;
  balance = format_amount w.balance;
  account_code = w.account_code;
}

pub record WalletTransactionItem : Type 0 where
  pub journal_id : Text
  pub ref_type : Text
  pub ref_id : Text
  pub description : Text
  pub debit : Text
  pub credit : Text
  pub created_at : ℕ

unfoldable pub to_item : AccountEntry → WalletTransactionItem
to_item e = record {
  journal_id = e.journal_id;
  ref_type = e.ref_type;
  ref_id = e.ref_id;
  description = e.description;
  debit = format_amount e.debit;
  credit = format_amount e.credit;
  created_at = e.created_at;
}

module _ (env : Env) where
  unfoldable pub handle_get_wallet : Text → Text → M WalletResponse
  handle_get_wallet user_id currency =
      map_error map_wallet_error (get_wallet env user_id currency) >>= λ w.
      pure (to_wallet_response w)

  unfoldable pub handle_list_wallet_transactions : Text → Text → M (List WalletTransactionItem)
  handle_list_wallet_transactions user_id currency =
      map_error map_wallet_error (list_wallet_transactions env user_id currency) >>= λ items.
      pure (map to_item items)

unfoldable pub map_treasury_error : Error → Error
map_treasury_error treasury_unsupported_currency = status invalid_argument
map_treasury_error _ = status internal

pub record TreasurySummaryResponse : Type 0 where
  pub currency : Text
  pub accounts : List (Text × Text)

abbrev pub format_accounts : List (Text × ℤ) → List (Text × Text)
format_accounts [] = []
format_accounts ((code, balance) ∷ rest) = (code, format_amount balance) ∷ format_accounts rest

unfoldable pub handle_get_treasury_summary : Env → Text → M TreasurySummaryResponse
handle_get_treasury_summary env currency =
    map_error map_treasury_error (get_treasury_summary env currency) >>= λ summary.
    pure (record { currency = summary.currency; accounts = format_accounts summary.accounts })

pub record ProviderEventResponse : Type 0 where
  pub id : Text
  pub provider : Text
  pub event_type : Text
  pub payment_order_id : Text
  pub payload_hash : Text
  pub idempotency_key : Text
  pub processed : Bool
  pub created_at : ℕ

unfoldable pub to_event_response : Event → ProviderEventResponse
to_event_response event = record {
  id = event.id;
  provider = event.provider;
  event_type = event_type_text event.event_type;
  payment_order_id = event.payment_order_id;
  payload_hash = event.payload_hash;
  idempotency_key = event.idempotency_key;
  processed = event.processed;
  created_at = event.created_at;
}

-- The page and the limit are int32 in the request.
unfoldable pub handle_list_provider_events : Env → ListFilter → M (List ProviderEventResponse × ℕ)
handle_list_provider_events env filter =
    map_error (λ e. status internal) (list_provider_events env filter) >>= λ page.
    pure (map to_event_response page.0, page.1)
