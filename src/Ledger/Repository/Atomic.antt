-- ===== src/Ledger/Repository/Atomic.antt =====
-- CreateJournal within a transaction does not reach the committed tables.
use airbar_finance.Prelude.{◌≡◌, refl, Option, none, some, List, [], ◌∷◌}
use airbar_finance.Prelude.Text.{Text}
use airbar_finance.Domain.Ledger.{Entry, Journal}
use airbar_finance.Store.World.{Db, Env, World}
use airbar_finance.Store.Atomic.{
  Within, Shields, Shields-pure, Shields-bind, Shields-new_uuid, Shields-now_utc,
  Shields-on_querier, shields_rules,
}
use airbar_finance.Ledger.Repository.{
  insert_entries, create_journal_in_tx, create_journal_on, create_journal,
}

-- The tables that say who has what: escrows, payouts, payment orders, journals and
-- entries are those of `old`.
pub record Unchanged (old : Db) (d : Db) : Type 0 where
  pub escrows : d.escrows ≡ old.escrows
  pub withdrawals : d.withdrawals ≡ old.withdrawals
  pub orders : d.orders ≡ old.orders
  pub journals : d.journals ≡ old.journals
  pub entries : d.entries ≡ old.entries

module _ {old : Db} (env : Env) where
  insert_entries-Shields :
      (id : Text) (lines : List Entry) → Shields (Unchanged old) (insert_entries env id lines)
  unfolding insert_entries
  insert_entries-Shields id [] = Shields-pure []
  insert_entries-Shields id (line ∷ lines) = Shields-bind _ _ (Shields-new_uuid env) λ entry_id.
      Shields-bind _ _ (Shields-now_utc env) λ created_at.
        Shields-bind _ _ (Shields-on_querier env _)
          λ inserted. Shields-bind _ _ (insert_entries-Shields id lines) λ rest. Shields-pure _

  create_journal_in_tx-Shields :
      (journal : Journal) → Shields (Unchanged old) (create_journal_in_tx env journal)
  unfolding create_journal_in_tx
  create_journal_in_tx-Shields journal = search (shields_rules, insert_entries-Shields) depth 12

  pub create_journal-Shields :
      (journal : Journal) → Shields (Unchanged old) (create_journal env journal)
  unfolding create_journal
  create_journal-Shields journal = record { at = λ w h. in_open_tx w.tx w refl h }
    where
      in_open_tx :
          (t : Option Db) (w : World)
          → w.tx ≡ t
          → Within (Unchanged old) w
          → Within (Unchanged old) (create_journal_on env t journal w).1
      in_open_tx none w e h = absurd (h.open_tx e)
      in_open_tx (some v) w e h = (create_journal_in_tx-Shields journal).at w h
