-- ===== src/Ledger/Account.antt =====
-- internal/domain/ledger/account.go: the codes of ledger accounts, as strings.
pub mod Codes
use airbar_finance.Prelude.{
  ◌+◌, ◌-◌, Bool, true, false, not, List, [], ◌∷◌, ◌++◌, Option, none, some, length, take, drop,
  leb, if◌then◌else◌,
}
use airbar_finance.Prelude.Text.{Text, text, same, is_empty}

abbrev pub AccountCode : Type 0
AccountCode = Text

abbrev pub currency_irt : Text
currency_irt = text "IRT"

abbrev pub wallet_account_prefix : Text
wallet_account_prefix = text "USER:"

abbrev pub wallet_account_suffix : Text
wallet_account_suffix = text ":IRT:WALLET_LIABILITY"

abbrev pub promo_credit_account_suffix : Text
promo_credit_account_suffix = text ":IRT:PROMO_CREDIT_LIABILITY"

abbrev pub ir_psp_clearing : AccountCode
ir_psp_clearing = text "IR_PSP_CLEARING"

abbrev pub ir_bank_main : AccountCode
ir_bank_main = text "IR_BANK_MAIN"

abbrev pub ir_payout_clearing : AccountCode
ir_payout_clearing = text "IR_PAYOUT_CLEARING"

abbrev pub airbar_fee_revenue : AccountCode
airbar_fee_revenue = text "AIRBAR_FEE_REVENUE"

abbrev pub airbar_promo_expense : AccountCode
airbar_promo_expense = text "AIRBAR_PROMO_EXPENSE"

unfoldable pub user_wallet_account : Text → AccountCode
user_wallet_account user_id =
    text "USER:" ++ (user_id ++ (text ":" ++ (currency_irt ++ text ":WALLET_LIABILITY")))

unfoldable pub user_promo_credit_account : Text → AccountCode
user_promo_credit_account user_id =
    text "USER:" ++ (user_id ++ (text ":" ++ (currency_irt ++ text ":PROMO_CREDIT_LIABILITY")))

unfoldable pub shipment_escrow_account : Text → AccountCode
shipment_escrow_account shipment_id =
    text "SHIPMENT:" ++ (shipment_id ++ (text ":" ++ (currency_irt ++ text ":ESCROW")))

-- The two parsers differ in the suffix alone. The results `(userID, ok)` are an `Option`.
unfoldable pub parse_user_id : Text → AccountCode → Option Text
unfolding same
parse_user_id suffix raw =
    if leb (length raw) (length wallet_account_prefix + length suffix)
    then none
    else if not (same (take (length wallet_account_prefix) raw) wallet_account_prefix)
    then none
    else if not (same (drop (length raw - length suffix) raw) suffix)
    then none
    else let user_id =
        take (length raw - length suffix - length wallet_account_prefix)
          (drop (length wallet_account_prefix) raw) in
      if is_empty user_id then none else some user_id

unfoldable pub parse_user_id_from_wallet_account : AccountCode → Option Text
unfolding parse_user_id
parse_user_id_from_wallet_account = parse_user_id wallet_account_suffix

unfoldable pub parse_user_id_from_promo_credit_account : AccountCode → Option Text
unfolding parse_user_id
parse_user_id_from_promo_credit_account = parse_user_id promo_credit_account_suffix
