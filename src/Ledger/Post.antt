-- ===== src/Ledger/Post.antt =====
-- internal/usecase/ledger/post_journal.go. The wallet ensurer is set, as in cmd/server/main.go.
pub mod Keeps
pub mod Ignores
pub mod Atomic
use airbar_finance.Prelude.{List, some}
use airbar_finance.Prelude.Text.{Text}
use airbar_finance.Domain.Ledger.{RefType, EntryLine, Journal}
use airbar_finance.Store.World.{Env, M, ◌>>=◌, ◌>>◌, lift}
use airbar_finance.Ledger.Journal.{new_journal}
use airbar_finance.Ledger.Repository.{create_journal}
use airbar_finance.Accounts.Wallet.{ensure_account, ensure_for_lines}

pub record PostJournalInput : Type 0 where
  pub ref_type : RefType
  pub ref_id : Text
  pub description : Text
  pub lines : List EntryLine

unfoldable pub post_journal : Env → PostJournalInput → M Journal
post_journal env input = do
  journal ← lift (new_journal input.ref_type input.ref_id input.description input.lines)
  ensure_for_lines (some (ensure_account env)) input.lines
  create_journal env journal
