-- ===== src/Ledger/Like.antt =====
-- The LIKE patterns of internal/domain/ledger/account.go, SumByAccountLike and ListByAccount of
-- internal/infrastructure/postgres/repository/ledger.go.
pub mod History
pub mod Matches
use airbar_finance.Prelude.{
  ℕ, Bool, true, false, ◌&&◌, ◌||◌, Option, none, some, List, [], ◌∷◌, ◌++◌, find, ltb, leb, ◌==◌,
  if◌then◌else◌,
}
use airbar_finance.Prelude.Int.{ℤ}
use airbar_finance.Prelude.Text.{Text, text, same, is_empty}
use airbar_finance.Domain.Ledger.{RefType, Entry, JournalRow}
use airbar_finance.Store.World.{Db, Env, M, ◌>>=◌, lift}
use airbar_finance.Store.Sql.{Statement, done, on_pool}
use airbar_finance.Ledger.Account.{
  AccountCode, wallet_account_prefix, wallet_account_suffix, promo_credit_account_suffix,
}
use airbar_finance.Ledger.Repository.{select_sums, scan_sums}

-- Whether a test holds of some end of a text.
unfoldable pub some_end : (Text → Bool) → Text → Bool
some_end f [] = f []
some_end f (c ∷ s) = f (c ∷ s) || some_end f s

-- What follows the first character of a text in UTF-8, after its first byte.
unfoldable pub after_continuation : Text → Text
after_continuation [] = []
after_continuation (c ∷ s) =
    let rest = after_continuation s in if leb 128 c && ltb c 192 then rest else c ∷ s

abbrev one_character : (Text → Bool) → Text → Bool
one_character f [] = false
one_character f (c ∷ s) = f (after_continuation s)

abbrev same_byte : ℕ → (Text → Bool) → Text → Bool
same_byte c f [] = false
same_byte c f (d ∷ s) = (c == d) && f s

-- `s LIKE pattern`; no pattern of the program holds an escape.
unfoldable pub like : Text → Text → Bool
unfolding some_end after_continuation
like [] s = is_empty s
like (c ∷ p) s =
    if c == b'%'
    then some_end (like p) s
    else if c == b'_'
    then one_character (like p) s
    else same_byte c (like p) s

unfoldable pub wallet_account_like_pattern : Text
wallet_account_like_pattern = wallet_account_prefix ++ (text "%" ++ wallet_account_suffix)

unfoldable pub escrow_account_like_pattern : Text
escrow_account_like_pattern = text "SHIPMENT:%" ++ text ":IRT:ESCROW"

unfoldable pub promo_credit_account_like_pattern : Text
promo_credit_account_like_pattern =
    wallet_account_prefix ++ (text "%" ++ promo_credit_account_suffix)

-- On the pool, as the other sums.
unfoldable pub sum_by_account_like : Env → Text → M (ℤ × ℤ)
sum_by_account_like env pattern = do
  sums ← on_pool env (select_sums (λ e. like pattern e.account_code))
  lift (scan_sums sums)

pub record AccountEntry : Type 0 where
  pub journal_id : Text
  pub ref_type : RefType
  pub ref_id : Text
  pub description : Text
  pub debit : ℤ
  pub credit : ℤ
  pub created_at : ℕ

-- A row of the join, with the time of its entry.
abbrev pub Joined : Type 0
Joined = AccountEntry × ℕ

abbrev pub joined_with : Entry → Option JournalRow → List Joined → List Joined
joined_with e none rows = rows
joined_with e (some j) rows =
    (
      record {
        journal_id = j.id;
        ref_type = j.ref_type;
        ref_id = j.ref_id;
        description = j.description;
        debit = e.debit;
        credit = e.credit;
        created_at = j.created_at;
      },
      e.created_at,
    )
    ∷ rows

unfoldable pub join_entries : AccountCode → List JournalRow → List Entry → List Joined
join_entries code journals [] = []
join_entries code journals (e ∷ es) =
    let rest = join_entries code journals es in
    if same e.account_code code
    then joined_with e (find (λ j. same j.id e.journal_id) journals) rest
    else rest

-- ORDER BY j.created_at DESC, e.created_at DESC; rows of the same times stay in the table's order.
abbrev pub before : Joined → Joined → Bool
before (a, s) (b, t) = ltb b.created_at a.created_at || ((a.created_at == b.created_at) && leb t s)

unfoldable pub place : Joined → List Joined → List Joined
place row [] = row ∷ []
place row (other ∷ rows) =
    let rest = place row rows in if before row other then row ∷ other ∷ rows else other ∷ rest

unfoldable pub sorted : List Joined → List Joined
unfolding place
sorted [] = []
sorted (row ∷ rows) = place row (sorted rows)

abbrev pub entries_of : List Joined → List AccountEntry
entries_of [] = []
entries_of ((a, t) ∷ rows) = a ∷ entries_of rows

unfoldable pub select_by_account : AccountCode → Statement (List AccountEntry)
unfolding join_entries sorted
select_by_account code d = done (entries_of (sorted (join_entries code d.journals d.entries))) d

unfoldable pub list_by_account : Env → AccountCode → M (List AccountEntry)
list_by_account env code = on_pool env (select_by_account code)
