-- ===== src/Tests/Payment.antt =====
-- The theorems on payments at concrete inputs.
use airbar_finance.Prelude.{◌≤◌, refl, none, [], ◌∷◌, length}
use airbar_finance.Prelude.Int.{pos}
use airbar_finance.Prelude.Text.{text, same}
use airbar_finance.Domain.Payment.{Order, shipment, confirmed}
use airbar_finance.Store.World.{Db}
use airbar_finance.Store.Sql.{idle}
use airbar_finance.Store.Yields.{Satisfies}
use airbar_finance.Payment.Repository.{is_confirmed}
use airbar_finance.Payment.Verify.{verify_order}
use airbar_finance.Payment.Callback.{handle_callback}
use airbar_finance.Payment.Events.{list_provider_events}
use airbar_finance.Payment.Settled.{IsSettled}
use airbar_finance.Payment.Results.{Confirmed, Redirects, verify_order-Confirmed, callback_redirect}
use airbar_finance.Payment.Pages.{page_at_most_100}
use airbar_finance.System.{Call, perform, no_rows, handle_callback_call}
use airbar_finance.System.Settled.{at_once, then_request, confirmed_order_stays}
use airbar_finance.Tests.{sound_env}

abbrev paid_order : Order
paid_order = record {
  id = text "o1";
  shipment_id = text "s1";
  payer_user_id = text "ali";
  purpose = shipment;
  amount = pos 500;
  status = confirmed;
  authority = text "77";
  redirect_url = text "go";
  success_url = text "yes";
  failure_url = text "no";
  description = [];
  agreed_price = pos 0;
  verified_at = none;
  created_at = 0;
  updated_at = 0;
}

abbrev paid : Db
paid = record no_rows { orders = paid_order ∷ [] }

-- A callback that reports a failure of the order that is paid.
abbrev late_failure : Call
late_failure = handle_callback_call (record { track_id = text "77"; success = text "0" })

confirmed_order_stays_example :
    IsSettled (text "o1") (perform sound_env late_failure (idle paid)).1.committed
unfolding same is_confirmed
confirmed_order_stays_example =
    confirmed_order_stays (text "o1") paid _ (then_request sound_env late_failure paid at_once)
      (refl, ((λ e. refl), tt))

verify_order-Confirmed_example :
    Satisfies Confirmed
      (verify_order sound_env
        (record { order_id = text "o1"; authority = []; purpose = none })
        (idle paid)).0
verify_order-Confirmed_example =
    verify_order-Confirmed sound_env
      (record { order_id = text "o1"; authority = []; purpose = none }) (idle paid)

callback_redirect_example :
    Satisfies Redirects
      (handle_callback sound_env
        (record { track_id = text "77"; success = text "1" })
        (idle paid)).0
callback_redirect_example =
    callback_redirect sound_env (record { track_id = text "77"; success = text "1" }) (idle paid)

page_at_most_100_example :
    Satisfies
      (λ page. length page.0 ≤ 100)
      (list_provider_events sound_env
        (record {
          provider = [];
          event_type = [];
          payment_order_id = [];
          page = pos 3;
          limit = pos 1000;
        })
        (idle paid)).0
page_at_most_100_example =
    page_at_most_100 sound_env
      (record {
        provider = [];
        event_type = [];
        payment_order_id = [];
        page = pos 3;
        limit = pos 1000;
      })
      (idle paid)
