-- ===== src/Escrow/Funding.antt =====
-- internal/usecase/escrow/payer_funding.go
pub mod Laws
pub mod Negative
use airbar_finance.Prelude.{Bool, true, false, ◌&&◌, ◌||◌, List, [], ◌∷◌, ◌++◌, if◌then◌else◌}
use airbar_finance.Prelude.Int.{ℤ, pos, ltb_ℤ, leb_ℤ, add_64, sub_64}
use airbar_finance.Prelude.Text.{Text, text}
use airbar_finance.Domain.Errors.{escrow, invalid_amount, insufficient_payer_funds}
use airbar_finance.Domain.Escrow.{FundingSource, mixed, promo_credit, wallet}
use airbar_finance.Domain.Ledger.{
  RefType, EntryLine, promo_credit_to_escrow, wallet_to_escrow, escrow_refund_promo_credit,
  escrow_refund_wallet,
}
use airbar_finance.Store.World.{Result, ok, err}
use airbar_finance.Ledger.Account.{
  user_wallet_account, user_promo_credit_account, shipment_escrow_account,
}
use airbar_finance.Ledger.Post.{PostJournalInput}
use airbar_finance.Amounts.{format_amount}

pub record PayerFundingSplit : Type 0 where
  pub promo_part : ℤ
  pub wallet_part : ℤ

unfoldable pub total : PayerFundingSplit → ℤ
total s = add_64 s.promo_part s.wallet_part

unfoldable pub resolve_payer_funding_split : ℤ → ℤ → ℤ → Result PayerFundingSplit
resolve_payer_funding_split amount promo_balance wallet_balance =
    if leb_ℤ amount (pos 0)
    then err (escrow invalid_amount)
    else let promo_used = if ltb_ℤ amount promo_balance then amount else promo_balance in
      let wallet_needed = sub_64 amount promo_used in
      if ltb_ℤ wallet_balance wallet_needed
      then err (escrow insufficient_payer_funds)
      else ok (record { promo_part = promo_used; wallet_part = wallet_needed })

unfoldable pub funding_source_for_split : PayerFundingSplit → FundingSource
funding_source_for_split split =
    if ltb_ℤ (pos 0) split.promo_part && ltb_ℤ (pos 0) split.wallet_part
    then mixed
    else if ltb_ℤ (pos 0) split.promo_part
    then promo_credit
    else wallet

unfoldable pub build_escrow_pay_journal_lines : Text → Text → PayerFundingSplit → List EntryLine
unfolding total
build_escrow_pay_journal_lines payer_user_id shipment_id split =
    (if ltb_ℤ (pos 0) split.promo_part
      then record {
        account_code = user_promo_credit_account payer_user_id;
        debit = split.promo_part;
        credit = pos 0;
      }
        ∷ []
      else [])
    ++ ((if ltb_ℤ (pos 0) split.wallet_part
          then record {
            account_code = user_wallet_account payer_user_id;
            debit = split.wallet_part;
            credit = pos 0;
          }
            ∷ []
          else [])
        ++ (record {
          account_code = shipment_escrow_account shipment_id;
          debit = pos 0;
          credit = total split;
        }
            ∷ []))

unfoldable pub ref_type_for_escrow_pay : PayerFundingSplit → RefType
ref_type_for_escrow_pay split =
    if ltb_ℤ (pos 0) split.promo_part && ltb_ℤ (pos 0) split.wallet_part
    then promo_credit_to_escrow
    else if ltb_ℤ (pos 0) split.promo_part
    then promo_credit_to_escrow
    else wallet_to_escrow

unfoldable pub refund_allocation : ℤ → ℤ → ℤ × ℤ
refund_allocation refund_amount promo_credit_remaining =
    if leb_ℤ refund_amount (pos 0) || leb_ℤ promo_credit_remaining (pos 0)
    then (pos 0, refund_amount)
    else let promo_refund =
        if ltb_ℤ promo_credit_remaining refund_amount
        then promo_credit_remaining
        else refund_amount in
      (promo_refund, sub_64 refund_amount promo_refund)

abbrev pub promo_refund_input : Text → Text → ℤ → PostJournalInput
promo_refund_input payer_user_id shipment_id promo_refund = record {
  ref_type = escrow_refund_promo_credit;
  ref_id = shipment_id ++ (text ":refund-promo:" ++ format_amount promo_refund);
  description = text "Refund escrow promo credit to payer";
  lines =
      record {
        account_code = shipment_escrow_account shipment_id;
        debit = promo_refund;
        credit = pos 0;
      }
      ∷ record {
        account_code = user_promo_credit_account payer_user_id;
        debit = pos 0;
        credit = promo_refund;
      }
      ∷ [];
}

abbrev pub wallet_refund_input : Text → Text → ℤ → PostJournalInput
wallet_refund_input payer_user_id shipment_id wallet_refund = record {
  ref_type = escrow_refund_wallet;
  ref_id = shipment_id ++ (text ":refund-wallet:" ++ format_amount wallet_refund);
  description = text "Refund escrow to payer wallet";
  lines =
      record {
        account_code = shipment_escrow_account shipment_id;
        debit = wallet_refund;
        credit = pos 0;
      }
      ∷ record {
        account_code = user_wallet_account payer_user_id;
        debit = pos 0;
        credit = wallet_refund;
      }
      ∷ [];
}

unfoldable pub build_escrow_refund_journal_lines : Text → Text → ℤ → ℤ → List PostJournalInput
build_escrow_refund_journal_lines payer_user_id shipment_id promo_refund wallet_refund =
    (if ltb_ℤ (pos 0) promo_refund
      then promo_refund_input payer_user_id shipment_id promo_refund ∷ []
      else [])
    ++ (if ltb_ℤ (pos 0) wallet_refund
        then wallet_refund_input payer_user_id shipment_id wallet_refund ∷ []
        else [])
