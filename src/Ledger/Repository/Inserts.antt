-- ===== src/Ledger/Repository/Inserts.antt =====
-- CreateJournal keeps the ledger balanced: between its inserts the ledger is not, but an insert that
-- fails breaks the transaction.
use airbar_finance.Prelude.{
  ℕ, ◌≡◌, refl, true, Option, none, some, List, [], ◌∷◌, inl, inr, Bool-cases, All, any, ◌&&◌,
}
use airbar_finance.Prelude.Text.{Text, same}
use airbar_finance.Prelude.Int.{◌+ℤ◌, int_laws, parts_of_eq}
use airbar_finance.Domain.Ledger.{Entry, Journal, JournalRow}
use airbar_finance.Store.World.{Db, Env, World}
use airbar_finance.Store.Sql.{new_uuid, now_utc}
use airbar_finance.Store.Keeps.{Holds, Keeps, Keeps-with_open_tx}
use airbar_finance.Store.Leads.{
  Leads, Establishes, Leads-bind, Leads-pure, Leads-on_querier, Leads-map_error, Leads-new_uuid,
  Leads-now_utc, Leads-keeps, Leads-weaken,
}
use airbar_finance.Ledger.Repository.{
  insert_journal, sides_fit, insert_entry, duplicate_error, insert_entries, create_journal_in_tx,
  create_journal_on, create_journal, sum_debit, sum_credit,
}
use airbar_finance.Ledger.Repository.Sums.{
  IsBalanced, everything, sum_debit-append, sum_credit-append,
}

abbrev pub Fits : Entry → Type 0
Fits e = sides_fit e.debit e.credit ≡ true

-- The ledger and the entries still to insert balance together, if the database takes those entries.
abbrev pub Owing : List Entry → Db → Type 0
Owing lines d =
    All Fits lines
    → sum_debit everything d.entries +ℤ sum_debit everything lines
      ≡ sum_credit everything d.entries +ℤ sum_credit everything lines

abbrev stored : Entry → Text → Text → ℕ → Entry
stored line id journal_id created_at = record line {
  id = id;
  journal_id = journal_id;
  created_at = created_at;
}

insert_entry-Owing :
    (line : Entry) (lines : List Entry) (id journal_id : Text) (created_at : ℕ) (d : Db)
    → Owing (line ∷ lines) d
    → Establishes (Owing lines) (insert_entry (stored line id journal_id created_at) d)
unfolding insert_entry
insert_entry-Owing line lines id journal_id created_at d h =
    elim (Bool-cases (sides_fit line.debit line.credit)) [
      | inl fits ↦ rw fits λ rest.
          rw (sum_debit-append, sum_credit-append)
            (omega (int_laws, parts_of_eq _ _ (h (fits, rest))))
      | inr refused ↦ rw refused tt
    ]

insert_journal-Owing :
    (row : JournalRow) (lines : List Entry) (d : Db)
    → Owing lines d
    → Establishes (Owing lines) (insert_journal row d)
unfolding insert_journal
insert_journal-Owing row lines d h =
    elim (Bool-cases
      (any (λ r. same r.ref_type row.ref_type && same r.ref_id row.ref_id) d.journals)) [
        | inl taken ↦ rw taken tt
        | inr free ↦ rw free h
      ]

insert_entries-Owing :
    (env : Env) (journal_id : Text) (lines : List Entry)
    → Leads (Owing lines) (Owing []) (insert_entries env journal_id lines)
unfolding insert_entries
insert_entries-Owing env journal_id [] = Leads-pure []
insert_entries-Owing env journal_id (line ∷ lines) =
    Leads-bind (new_uuid env) _ (Leads-new_uuid env) λ id.
      Leads-bind (now_utc env) _ (Leads-now_utc env) λ created_at.
        Leads-bind _ _
          (Leads-on_querier env _ (insert_entry-Owing line lines id journal_id created_at))
          λ inserted.
            Leads-bind _ _ (insert_entries-Owing env journal_id lines) λ rest. Leads-pure _

create_journal_in_tx-Owing :
    (env : Env) (journal : Journal)
    → Leads (Owing journal.entries) (Owing []) (create_journal_in_tx env journal)
unfolding create_journal_in_tx
create_journal_in_tx-Owing env journal = Leads-bind (new_uuid env) _ (Leads-new_uuid env) λ id.
    Leads-bind (now_utc env) _ (Leads-now_utc env) λ created_at.
      Leads-bind _ _
        (Leads-map_error duplicate_error _
          (Leads-on_querier env _ (insert_journal-Owing _ journal.entries)))
        λ inserted.
          Leads-bind _ _ (insert_entries-Owing env id journal.entries) λ entries. Leads-pure _

-- The journal's entries balance, if the database takes them.
abbrev pub Balances : List Entry → Type 0
Balances entries = All Fits entries → sum_debit everything entries ≡ sum_credit everything entries

balanced-Owing : (entries : List Entry) (d : Db) → Balances entries → IsBalanced d → Owing entries d
balanced-Owing entries d b h fits = cc (b fits)

Owing-IsBalanced : (d : Db) → Owing [] d → IsBalanced d
Owing-IsBalanced d h = omega (int_laws, parts_of_eq _ _ (h tt))

create_journal_in_tx-Leads :
    (env : Env) (journal : Journal)
    → Balances journal.entries
    → Leads IsBalanced IsBalanced (create_journal_in_tx env journal)
create_journal_in_tx-Leads env journal b =
    Leads-weaken (λ d. balanced-Owing journal.entries d b) Owing-IsBalanced
      (create_journal_in_tx-Owing env journal)

create_journal_on-Holds :
    (env : Env) (t : Option Db) (journal : Journal) (w : World)
    → w.tx ≡ t
    → Balances journal.entries
    → Holds IsBalanced w
    → Holds IsBalanced (create_journal_on env t journal w).1
unfolding create_journal_on
create_journal_on-Holds env none journal w e b h =
    (Keeps-with_open_tx env _ (Leads-keeps _ (create_journal_in_tx-Leads env journal b))).at w h
create_journal_on-Holds env (some v) journal w e b h =
    Leads-keeps _ (create_journal_in_tx-Leads env journal b) w (λ n. cc) h

-- CreateJournal keeps the ledger balanced, in the open transaction or in its own, whatever calls fail.
pub create_journal-Keeps :
    (env : Env) (journal : Journal)
    → Balances journal.entries
    → Keeps IsBalanced (create_journal env journal)
unfolding create_journal
create_journal-Keeps env journal b = record {
  at = λ w h. create_journal_on-Holds env w.tx journal w refl b h;
}
