-- ===== src/Idempotency/Methods.antt =====
-- internal/delivery/grpc/idempotency/methods.go and errors.go
use airbar_finance.Prelude.{Option, none, some, List, [], ◌∷◌, ◌++◌, if◌then◌else◌}
use airbar_finance.Prelude.Text.{Text, text, same, is_empty}
use airbar_finance.Domain.Errors.{
  Error, idempotency, key_required, conflict, not_found, status, invalid_argument, aborted,
  IdempotencyError, Code,
}
use airbar_finance.Store.World.{Env}

-- The resource's id is a getter of the generated code on the request.
pub record MethodSpec : Type 0 where
  pub scope : Text
  pub resource_type : Text

abbrev service : Text → Text → Text
service name method = text "/airbar.finance.v1." ++ (name ++ (text "/" ++ method))

abbrev spec : Text → Text → MethodSpec
spec scope resource_type = record { scope = scope; resource_type = resource_type }

unfoldable pub mutating_methods : List (Text × MethodSpec)
mutating_methods =
    (
      service (text "EscrowService") (text "CreateEscrow"),
      spec (text "escrow.create") (text "shipment"),
    )
    ∷ (
      service (text "EscrowService") (text "FundEscrow"),
      spec (text "escrow.fund") (text "shipment"),
    )
    ∷ (
      service (text "EscrowService") (text "PayFromWallet"),
      spec (text "escrow.pay_from_wallet") (text "shipment"),
    )
    ∷ (
      service (text "EscrowService") (text "MarkDelivered"),
      spec (text "escrow.mark_delivered") (text "shipment"),
    )
    ∷ (
      service (text "EscrowService") (text "FreezeEscrow"),
      spec (text "escrow.freeze") (text "shipment"),
    )
    ∷ (
      service (text "EscrowService") (text "ReleaseEscrow"),
      spec (text "escrow.release") (text "shipment"),
    )
    ∷ (
      service (text "EscrowService") (text "RefundEscrow"),
      spec (text "escrow.refund") (text "shipment"),
    )
    ∷ (
      service (text "EscrowService") (text "PartialRefundEscrow"),
      spec (text "escrow.partial_refund") (text "shipment"),
    )
    ∷ (
      service (text "PaymentOrderService") (text "CreatePaymentOrder"),
      spec (text "payment.create") (text "shipment"),
    )
    ∷ (
      service (text "PaymentOrderService") (text "VerifyPaymentOrder"),
      spec (text "payment.verify") (text "payment_order"),
    )
    ∷ (
      service (text "PaymentOrderService") (text "CreateWalletTopupOrder"),
      spec (text "wallet.topup.create") (text "user"),
    )
    ∷ (
      service (text "PaymentOrderService") (text "VerifyWalletTopupOrder"),
      spec (text "wallet.topup.verify") (text "payment_order"),
    )
    ∷ (
      service (text "WithdrawalService") (text "CreateWithdrawal"),
      spec (text "withdrawal.create") (text "user"),
    )
    ∷ (
      service (text "WithdrawalService") (text "ProcessWithdrawal"),
      spec (text "withdrawal.process") (text "withdrawal"),
    )
    ∷ (
      service (text "WithdrawalService") (text "RejectWithdrawal"),
      spec (text "withdrawal.reject") (text "withdrawal"),
    )
    ∷ (
      service (text "CreditService") (text "GrantCredit"),
      spec (text "credit.grant") (text "user"),
    )
    ∷ (
      service (text "CreditService") (text "ReverseCreditGrant"),
      spec (text "credit.reverse") (text "credit_grant"),
    )
    ∷ []

unfoldable pub lookup_in : Text → List (Text × MethodSpec) → Option MethodSpec
lookup_in full_method [] = none
lookup_in full_method ((name, found) ∷ rest) =
    if same name full_method then some found else lookup_in full_method rest

unfoldable pub lookup_method : Text → Option MethodSpec
lookup_method full_method = lookup_in full_method mutating_methods

unfoldable pub extract_idempotency_key : Env → Text → Text → Text
extract_idempotency_key env metadata_key body_key =
    if is_empty (env.trim_space metadata_key)
    then env.trim_space body_key
    else env.trim_space metadata_key

unfoldable pub snapshot_method_key : Text → Text
snapshot_method_key full_method = text "@method:" ++ full_method

unfoldable pub idempotency_code : IdempotencyError → Code
idempotency_code key_required = invalid_argument
idempotency_code conflict = aborted
idempotency_code not_found = Code.not_found

unfoldable pub map_domain_error : Error → Error
unfolding idempotency_code
map_domain_error (idempotency e) = status (idempotency_code e)
map_domain_error e = e
