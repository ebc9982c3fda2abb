-- ===== src/Tests/Escrow.antt =====
-- The theorems on escrows at concrete inputs.
use airbar_finance.Prelude.{◌<◌, ◌≡◌, ◌↔◌, refl, none, some, [], ◌∷◌, inl, arith}
use airbar_finance.Prelude.Int.{pos, negsuc, ◌≤ℤ◌}
use airbar_finance.Prelude.Text.{same, text}
use airbar_finance.Domain.Errors.{ledger, unbalanced_journal, invalid_entry}
use airbar_finance.Domain.Escrow.{Escrow, dispute_window, released, wallet}
use airbar_finance.Store.World.{Db, ok, err, ◌>>=◌}
use airbar_finance.Store.Sql.{done, after, idle, new_uuid, now_utc, on_querier}
use airbar_finance.Ledger.Journal.{validate_lines}
use airbar_finance.Ledger.Post.{post_journal}
use airbar_finance.Escrow.Fee.{calc_platform_fee, calc_platform_fee_bounds}
use airbar_finance.Escrow.Status.Steps.{stay, terminal_stays}
use airbar_finance.Escrow.Funding.Negative.{negative_promo_refused}
use airbar_finance.Escrow.Funding.{
  PayerFundingSplit, resolve_payer_funding_split, refund_allocation, build_escrow_pay_journal_lines,
}
use airbar_finance.Escrow.Funding.Laws.{
  resolve_payer_funding_split_lem, pay_lines_valid, refund_allocation_lem,
}
use airbar_finance.Escrow.Release.{release_input}
use airbar_finance.Escrow.Repository.{create, select_escrow, insert_escrow, update_escrow}
use airbar_finance.Escrow.Repository.RoundTrip.{select-update, select_other-update}
use airbar_finance.Escrow.Lifecycle.{CreateEscrowInput, new_escrow, create_escrow}
use airbar_finance.Escrow.Lifecycle.Created.{created_escrow_found}
use airbar_finance.Escrow.Release.Lines.{release_lines_valid_iff, release_refused}
use airbar_finance.System.{no_rows}
use airbar_finance.Tests.{sound_env}

resolve_payer_funding_split_lem_example :
    resolve_payer_funding_split (pos 100) (pos 30) (pos 80)
    ≡ ok (record { promo_part = pos 30; wallet_part = pos 70 })
resolve_payer_funding_split_lem_example =
    resolve_payer_funding_split_lem 100 30 80 (omega arith) (omega arith)

pay_lines_valid_example :
    validate_lines (
      build_escrow_pay_journal_lines
        (text "ali")
        (text "s1")
        (record { promo_part = pos 30; wallet_part = pos 70 }))
    ≡ ok tt
pay_lines_valid_example = pay_lines_valid (text "ali") (text "s1") 30 70 (omega arith) (omega arith)

refund_allocation_lem_example : refund_allocation (pos 50) (pos 30) ≡ (pos 30, pos 20)
refund_allocation_lem_example = refund_allocation_lem 50 30 (omega arith)

abbrev delivered : Escrow
delivered = record {
  id = text "e1";
  shipment_id = text "s1";
  carrier_user_id = text "bahar";
  payer_user_id = text "ali";
  amount = pos 100;
  status = dispute_window;
  payment_order_id = [];
  funding_source = wallet;
  promo_credit_funded = pos 0;
  funded_at = some 1;
  released_at = none;
  refunded_at = none;
  created_at = 0;
  updated_at = 0;
}

release_lines_valid_iff_example :
    (validate_lines (release_input (text "s1") delivered (pos 100) (pos 5)).lines ≡ ok tt)
    ↔ (0 < 5) × (5 < 100)
release_lines_valid_iff_example =
    release_lines_valid_iff (text "s1") delivered 100 5 (omega arith) (omega arith) (omega arith)

release_refused_example :
    post_journal sound_env
      (release_input (text "s1") delivered (pos 10) (calc_platform_fee sound_env (pos 10)))
      (idle no_rows)
    ≡ (err (ledger invalid_entry), idle no_rows)
release_refused_example =
    release_refused sound_env (text "s1") delivered 10 0 (idle no_rows) (omega arith) (omega arith)
      (unfold calc_platform_fee in refl) (inl refl)

calc_platform_fee_bounds_example :
    (pos 0 ≤ℤ calc_platform_fee sound_env (pos 100))
    × (calc_platform_fee sound_env (pos 100) ≤ℤ pos 100)
calc_platform_fee_bounds_example = calc_platform_fee_bounds sound_env (pos 100) (omega arith)

terminal_stays_example : released ≡ released
terminal_stays_example = terminal_stays released released (inl refl) (stay released)

negative_promo_refused_example :
    (split : PayerFundingSplit) × ((resolve_payer_funding_split (pos 100) (negsuc 29) (pos 500)
        ≡ ok split)
      × (validate_lines (build_escrow_pay_journal_lines (text "ali") (text "s1") split)
          ≡ err (ledger unbalanced_journal)))
negative_promo_refused_example =
    negative_promo_refused (text "ali") (text "s1") 100 29 500 (omega arith) (omega arith)
      (omega arith)

abbrev one_escrow : Db
one_escrow = record no_rows { escrows = delivered ∷ [] }

abbrev settled_escrow : Escrow
settled_escrow = record delivered { status = released }

abbrev second_escrow : Escrow
second_escrow = record delivered { id = text "e2"; shipment_id = text "s2" }

abbrev two_escrows : Db
two_escrows = record no_rows { escrows = delivered ∷ second_escrow ∷ [] }

select-update_example :
    select_escrow (text "s1") (after (update_escrow settled_escrow 7 one_escrow) one_escrow)
    ≡ done
        (some (record settled_escrow { updated_at = 7 }))
        (after (update_escrow settled_escrow 7 one_escrow) one_escrow)
unfolding same
select-update_example = select-update delivered settled_escrow 7 one_escrow refl refl refl

select_other-update_example :
    select_escrow (text "s2") (after (update_escrow settled_escrow 7 two_escrows) two_escrows)
    ≡ done (some second_escrow) (after (update_escrow settled_escrow 7 two_escrows) two_escrows)
unfolding same
select_other-update_example =
    select_other-update settled_escrow second_escrow (text "s2") 7 two_escrows refl refl

abbrev new_input : CreateEscrowInput
new_input = record {
  shipment_id = text "s1";
  carrier_user_id = text "bahar";
  payer_user_id = text "ali";
  amount = pos 500;
}

abbrev opened : Escrow
opened = record (new_escrow new_input) { id = text "A" }

created_escrow_found_example :
    select_escrow (text "s1") (create_escrow sound_env new_input (idle no_rows)).1.committed
    ≡ done (some opened) (create_escrow sound_env new_input (idle no_rows)).1.committed
unfolding create_escrow ◌>>=◌ create new_uuid now_utc on_querier insert_escrow
created_escrow_found_example =
    created_escrow_found sound_env new_input (idle no_rows) opened refl refl
