-- ===== src/Domain/Ledger.antt =====
-- internal/domain/ledger/journal.go: the types of journals and entries.
use airbar_finance.Prelude.{ℕ, List}
use airbar_finance.Prelude.Int.{ℤ}
use airbar_finance.Prelude.Text.{Text, text}

abbrev pub RefType : Type 0
RefType = Text

abbrev pub psp_to_wallet : RefType
psp_to_wallet = text "PSP_TO_WALLET"

abbrev pub wallet_to_escrow : RefType
wallet_to_escrow = text "WALLET_TO_ESCROW"

abbrev pub escrow_release : RefType
escrow_release = text "ESCROW_RELEASE"

abbrev pub escrow_refund_wallet : RefType
escrow_refund_wallet = text "ESCROW_REFUND_WALLET"

abbrev pub wallet_topup : RefType
wallet_topup = text "WALLET_TOPUP"

abbrev pub withdrawal_reserve : RefType
withdrawal_reserve = text "WITHDRAWAL_RESERVE"

abbrev pub withdrawal_reject_reversal : RefType
withdrawal_reject_reversal = text "WITHDRAWAL_REJECT_REVERSAL"

abbrev pub promo_credit_grant : RefType
promo_credit_grant = text "PROMO_CREDIT_GRANT"

abbrev pub promo_credit_reverse : RefType
promo_credit_reverse = text "PROMO_CREDIT_REVERSE"

abbrev pub promo_credit_to_escrow : RefType
promo_credit_to_escrow = text "PROMO_CREDIT_TO_ESCROW"

abbrev pub escrow_refund_promo_credit : RefType
escrow_refund_promo_credit = text "ESCROW_REFUND_PROMO_CREDIT"

pub record EntryLine : Type 0 where
  pub account_code : Text
  pub debit : ℤ
  pub credit : ℤ

pub record Entry : Type 0 where
  pub id : Text
  pub journal_id : Text
  pub account_code : Text
  pub debit : ℤ
  pub credit : ℤ
  pub created_at : ℕ

pub record Journal : Type 0 where
  pub id : Text
  pub ref_type : RefType
  pub ref_id : Text
  pub description : Text
  pub entries : List Entry
  pub created_at : ℕ

-- A row of finance.ledger_journals; its entries are rows of finance.ledger_entries.
pub record JournalRow : Type 0 where
  pub id : Text
  pub ref_type : RefType
  pub ref_id : Text
  pub description : Text
  pub created_at : ℕ
