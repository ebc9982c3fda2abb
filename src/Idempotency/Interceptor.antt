-- ===== src/Idempotency/Interceptor.antt =====
-- internal/delivery/grpc/idempotency/interceptor.go and snapshot.go. The messages of a method and
-- their JSON are the generated code's and the protobuf library's.
use airbar_finance.Prelude.{Bool, false, ◌&&◌, not, Option, none, some, [], ◌∷◌, ◌≡◌, if◌then◌else◌}
use airbar_finance.Prelude.Text.{Text, same, is_empty}
use airbar_finance.Domain.Errors.{malformed_snapshot}
use airbar_finance.Domain.Idempotency.{Snapshot}
use airbar_finance.Store.World.{
  Env, M, Result, ok, err, ◌>>=◌, ◌>>◌, pure, fail, lift, ignore, map_error,
}
use airbar_finance.Idempotency.Guard.{begin, complete, rollback}
use airbar_finance.Idempotency.Methods.{
  MethodSpec, lookup_method, extract_idempotency_key, snapshot_method_key, map_domain_error,
}

-- What the interceptor reads of a call: the method, the header, and two getters on the request.
pub record Incoming : Type 0 where
  pub full_method : Text
  pub metadata_key : Text
  pub body_key : Text
  pub resource_id : Text

-- protojson of a method's responses, into a JSON object and back. Reading discards unknown fields,
-- so that the entry that names the method does not matter to it.
pub record Codec (Response : Type 0) : Type 0 where
  pub to_fields : Response → Option Snapshot
  pub of_fields : Snapshot → Option Response

pub record IsFaithful {Response : Type 0} (codec : Codec Response) : Type 0 where
  pub reads_back :
      (response : Response) (fields : Snapshot) (method : Text)
      → codec.to_fields response ≡ some fields
      → codec.of_fields ((snapshot_method_key method, method) ∷ fields) ≡ some response

-- A field of a JSON object.
abbrev pub field : Text → Snapshot → Option Text
field name [] = none
field name ((n, value) ∷ rest) = if same n name then some value else field name rest

abbrev pub differs : Text → Option Text → Bool
differs full_method none = false
differs full_method (some stored) = not (is_empty stored) && not (same stored full_method)

-- The method that a snapshot names is another one.
unfoldable pub names_another : Text → Snapshot → Bool
names_another full_method snapshot =
    differs full_method (field (snapshot_method_key full_method) snapshot)

module _ {Response : Type 0} (codec : Codec Response) where
  abbrev named_fields : Text → Option Snapshot → Option Snapshot
  named_fields full_method none = none
  named_fields full_method (some fields) =
      some ((snapshot_method_key full_method, full_method) ∷ fields)

  unfoldable pub response_to_snapshot : Text → Response → Option Snapshot
  response_to_snapshot full_method response = named_fields full_method (codec.to_fields response)

  abbrev or_malformed : Option Response → Result Response
  or_malformed none = err malformed_snapshot
  or_malformed (some response) = ok response

  unfoldable pub snapshot_to_response : Text → Snapshot → Result Response
  snapshot_to_response full_method snapshot =
      if names_another full_method snapshot
      then err malformed_snapshot
      else or_malformed (codec.of_fields snapshot)

  -- What follows the handler. Every response is a message.
  unfoldable pub store_response : Env → Text → Text → Response → Option Snapshot → M Response
  store_response env full_method key response none =
      ignore (rollback env key) >> fail malformed_snapshot
  store_response env full_method key response (some snapshot) =
      map_error map_domain_error (complete env key snapshot) >> pure response

  unfoldable pub after_handler : Env → Text → Text → Result Response → M Response
  after_handler env full_method key (err e) = ignore (rollback env key) >> fail e
  after_handler env full_method key (ok response) =
      store_response env full_method key response (response_to_snapshot full_method response)

  unfoldable pub run_handler : Env → Text → Text → M Response → M Response
  run_handler env full_method key handler w =
      let (r, w') = handler w in after_handler env full_method key r w'

  unfoldable pub replay_or_run : Env → Text → Text → M Response → Option Snapshot → M Response
  replay_or_run env full_method key handler (some snapshot) =
      map_error map_domain_error (lift (snapshot_to_response full_method snapshot))
  replay_or_run env full_method key handler none = run_handler env full_method key handler

  unfoldable pub deduplicate : Env → MethodSpec → Text → Incoming → M Response → M Response
  deduplicate env spec key incoming handler =
      map_error map_domain_error (begin env key spec.scope spec.resource_type incoming.resource_id)
      >>= replay_or_run env incoming.full_method key handler

  abbrev for_method : Env → Option MethodSpec → Incoming → M Response → M Response
  for_method env none incoming handler = handler
  for_method env (some spec) incoming handler =
      deduplicate env spec (extract_idempotency_key env incoming.metadata_key incoming.body_key)
        incoming handler

  -- The interceptor around the method's handler, which is applied to the request.
  unfoldable pub unary_interceptor : Env → Incoming → M Response → M Response
  unary_interceptor env incoming handler =
      for_method env (lookup_method incoming.full_method) incoming handler
