-- ===== src/Tests/Ledger.antt =====
-- The theorems on the ledger and on amounts at concrete inputs.
use airbar_finance.Prelude.{
  ℕ, ◌%◌, ◌^◌, ◌-◌, ◌<◌, ◌≡◌, ◌≢◌, ◌↔◌, refl, true, false, some, List, [], ◌∷◌, arith, length, All,
}
use airbar_finance.Prelude.Int.{pos, ◌+ℤ◌, add_64, sub_64, wrap_64, ◌-ℤ◌}
use airbar_finance.Prelude.Text.{text, is_empty, same}
use airbar_finance.Domain.Errors.{escrow, invalid_amount}
use airbar_finance.Domain.Ledger.{EntryLine, Entry, JournalRow, wallet_topup}
use airbar_finance.Store.World.{Db, ok, ◌>>=◌}
use airbar_finance.Store.Sql.{idle, on_pool}
use airbar_finance.Store.Keeps.{Holds}
use airbar_finance.Amounts.{parse_amount, format_amount}
use airbar_finance.Amounts.RoundTrip.{parse-format}
use airbar_finance.Ledger.Account.{
  user_wallet_account, user_promo_credit_account, shipment_escrow_account,
  parse_user_id_from_wallet_account, parse_user_id_from_promo_credit_account,
}
use airbar_finance.Ledger.Account.Codes.{
  parse_wallet_account_iff, parse_promo_credit_account_iff, wallet-ne-promo, escrow-ne-user,
}
use airbar_finance.Ledger.Like.{
  like, wallet_account_like_pattern, escrow_account_like_pattern, promo_credit_account_like_pattern,
}
use airbar_finance.Ledger.Like.History.{debits, credits}
use airbar_finance.Ledger.Like.Matches.{patterns_match}
use airbar_finance.Ledger.Journal.{validate_lines}
use airbar_finance.Ledger.Journal.Totals.{
  IsOneSided, IsTyped, total_debit, total_credit, validate_lines_iff, validate_lines_balanced,
  validate_lines_wraps,
}
use airbar_finance.Ledger.Repository.Sums.{IsBalanced}
use airbar_finance.Ledger.Post.{PostJournalInput, post_journal}
use airbar_finance.Ledger.Post.Keeps.{post_journal-IsBalanced}
use airbar_finance.Escrow.Funding.Laws.{
  debit_line-IsTyped, credit_line-IsTyped, debit_line-IsOneSided, credit_line-IsOneSided,
}
use airbar_finance.System.{no_rows}
use airbar_finance.Ledger.Like.{AccountEntry, list_by_account, select_by_account}
use airbar_finance.Ledger.Repository.{sum_by_account}
use airbar_finance.Accounts.Wallet.{get_balance}
use airbar_finance.Accounts.Queries.{
  Wallet, normalize_currency, get_wallet, list_wallet_transactions,
}
use airbar_finance.Accounts.Listing.{wallet_is_listing}
use airbar_finance.Tests.{sound_env}

abbrev paid : EntryLine
paid = record { account_code = text "A"; debit = pos 7; credit = pos 0 }

abbrev received : EntryLine
received = record { account_code = text "B"; debit = pos 0; credit = pos 7 }

abbrev move : List EntryLine
move = paid ∷ received ∷ []

abbrev move_input : PostJournalInput
move_input = record { ref_type = text "T"; ref_id = text "1"; description = []; lines = move }

move-IsTyped : All IsTyped move
move-IsTyped = (debit_line-IsTyped _ 7 (omega arith), (credit_line-IsTyped _ 7 (omega arith), tt))

post_journal-IsBalanced_example :
    Holds IsBalanced (post_journal sound_env move_input (idle no_rows)).1
post_journal-IsBalanced_example =
    post_journal-IsBalanced sound_env move_input (idle no_rows) (omega arith) (omega arith)
      (record { of_committed = refl; of_view = tt })

validate_lines_iff_example :
    (validate_lines move ≡ ok tt)
    ↔ (0 < length move)
      × All IsOneSided move
      × (total_debit move % 2 ^ 64 ≡ total_credit move % 2 ^ 64)
validate_lines_iff_example = validate_lines_iff move move-IsTyped

validate_lines_balanced_example : total_debit move ≡ total_credit move
unfolding add_64 wrap_64 ◌+ℤ◌
validate_lines_balanced_example =
    validate_lines_balanced move move-IsTyped (omega arith) (omega arith)
      (unfold validate_lines in refl)

abbrev most : ℕ
most = 2 ^ 63 - 1

abbrev debit_of : ℕ → EntryLine
debit_of n = record { account_code = text "A"; debit = pos n; credit = pos 0 }

abbrev huge : List EntryLine
huge = debit_of most ∷ debit_of most ∷ debit_of 9 ∷ received ∷ []

validate_lines_wraps_example : validate_lines huge ≡ ok tt
validate_lines_wraps_example =
    validate_lines_wraps huge
      (
        debit_line-IsTyped _ most (omega arith),
        (
          debit_line-IsTyped _ most (omega arith),
          (debit_line-IsTyped _ 9 (omega arith), (credit_line-IsTyped _ 7 (omega arith), tt)),
        ),
      )
      (
        debit_line-IsOneSided _ refl most (omega arith),
        (
          debit_line-IsOneSided _ refl most (omega arith),
          (
            debit_line-IsOneSided _ refl 9 (omega arith),
            (credit_line-IsOneSided _ refl 7 (omega arith), tt),
          ),
        ),
      )
      (omega arith)

parse-format_example :
    parse_amount (escrow invalid_amount) (format_amount (pos 1250000)) ≡ ok (pos 1250000)
parse-format_example = parse-format (escrow invalid_amount) 1250000 (omega arith) (omega arith)

parse_wallet_account_iff_example :
    (parse_user_id_from_wallet_account (text "USER:ali:IRT:WALLET_LIABILITY") ≡ some (text "ali"))
    ↔ (is_empty (text "ali") ≡ false)
      × (text "USER:ali:IRT:WALLET_LIABILITY" ≡ user_wallet_account (text "ali"))
parse_wallet_account_iff_example =
    parse_wallet_account_iff (text "USER:ali:IRT:WALLET_LIABILITY") (text "ali")

parse_promo_credit_account_iff_example :
    (parse_user_id_from_promo_credit_account (text "USER:ali") ≡ some (text "ali"))
    ↔ (is_empty (text "ali") ≡ false) × (text "USER:ali" ≡ user_promo_credit_account (text "ali"))
parse_promo_credit_account_iff_example =
    parse_promo_credit_account_iff (text "USER:ali") (text "ali")

wallet-ne-promo_example : user_wallet_account (text "ali") ≢ user_promo_credit_account (text "ali")
wallet-ne-promo_example = wallet-ne-promo (text "ali") (text "ali")

escrow-ne-user_example :
    (shipment_escrow_account (text "s1") ≢ user_wallet_account (text "s1"))
    × (shipment_escrow_account (text "s1") ≢ user_promo_credit_account (text "s1"))
escrow-ne-user_example = escrow-ne-user (text "s1") (text "s1")

patterns_match_example :
    (like wallet_account_like_pattern (user_wallet_account (text "ali")) ≡ true)
    × ((like promo_credit_account_like_pattern (user_promo_credit_account (text "ali")) ≡ true)
        × (like escrow_account_like_pattern (shipment_escrow_account (text "ali")) ≡ true))
patterns_match_example = patterns_match (text "ali")

abbrev topup_row : JournalRow
topup_row = record {
  id = text "j1";
  ref_type = wallet_topup;
  ref_id = text "o1";
  description = [];
  created_at = 4;
}

abbrev entry_of : (debit credit created_at : ℕ) → Entry
entry_of debit credit created_at = record {
  id = text "e1";
  journal_id = text "j1";
  account_code = user_wallet_account (text "ali");
  debit = pos debit;
  credit = pos credit;
  created_at = created_at;
}

abbrev history : List Entry
history = entry_of 7 0 4 ∷ entry_of 0 9 5 ∷ []

abbrev ledger_of_ali : Db
ledger_of_ali = record no_rows { journals = topup_row ∷ []; entries = history }

abbrev listed_entry : (debit credit : ℕ) → AccountEntry
listed_entry debit credit = record {
  journal_id = text "j1";
  ref_type = wallet_topup;
  ref_id = text "o1";
  description = [];
  debit = pos debit;
  credit = pos credit;
  created_at = 4;
}

abbrev listing : List AccountEntry
listing = listed_entry 0 9 ∷ listed_entry 7 0 ∷ []

abbrev wallet_of_ali : Wallet
wallet_of_ali = record {
  user_id = text "ali";
  currency = text "IRT";
  balance = pos 2;
  account_code = user_wallet_account (text "ali");
}

wallet_is_listing_example : wallet_of_ali.balance ≡ sub_64 (credits listing) (debits listing)
unfolding get_wallet same ◌>>=◌ normalize_currency get_balance sum_by_account on_pool
    user_wallet_account ◌+ℤ◌ sub_64 wrap_64 ◌-ℤ◌ list_wallet_transactions list_by_account
    select_by_account
wallet_is_listing_example =
    wallet_is_listing sound_env (text "ali") [] (idle ledger_of_ali) wallet_of_ali listing
      (refl, (refl, tt)) refl refl
