-- ===== src/Idempotency/Retry.antt =====
-- What the interceptor answers to a first call with a key, and to the calls that repeat it.
use mathlib.Core.Path.{subst}
use airbar_finance.Prelude.{◌≡◌, refl, false, some, none, ◌∷◌}
use airbar_finance.Prelude.Text.{Text, is_empty}
use airbar_finance.Domain.Errors.{Error, status, aborted}
use airbar_finance.Domain.Idempotency.{Snapshot}
use airbar_finance.Store.World.{Env, World, ok, err, M, ◌>>=◌, lift, map_error}
use airbar_finance.Idempotency.Guard.{begin}
use airbar_finance.Idempotency.Methods.{
  MethodSpec, lookup_method, extract_idempotency_key, snapshot_method_key, map_domain_error,
}
use airbar_finance.Idempotency.Interceptor.{
  Incoming, Codec, IsFaithful, replay_or_run, deduplicate, unary_interceptor,
}
use airbar_finance.Idempotency.Replay.{
  Answers, IsAbsent, IsAnswered, IsInFlight, begin_answered, begin_in_flight,
}
use airbar_finance.Idempotency.Once.{
  LeavesKeys, Ends, deduplicate-Ends, deduplicate_returns, read_back,
}

-- The method is deduplicated, under this key.
pub record IsKeyed (env : Env) (incoming : Incoming) (spec : MethodSpec) (key : Text) : Type 0 where
  pub listed : lookup_method incoming.full_method ≡ some spec
  pub extracted : extract_idempotency_key env incoming.metadata_key incoming.body_key ≡ key
  pub named : is_empty key ≡ false

-- The state in which a later request arrives: no transaction, and a count of its own.
abbrev pub arriving : World → World
arriving w = record w { tx = none; broken = false; tick = 0 }

module _ {Response : Type 0} (codec : Codec Response) (env : Env) (incoming : Incoming)
    (spec : MethodSpec) (key : Text) (keyed : IsKeyed env incoming spec key) where
  deduplicated :
      (handler : M Response) (w : World)
      → unary_interceptor codec env incoming handler w
        ≡ deduplicate codec env spec key incoming handler w
  unfolding unary_interceptor
  deduplicated handler w = rw (keyed.listed, keyed.extracted) refl

  first_call-Ends :
      (handler : M Response) (w : World)
      → Answers env
      → IsAbsent key w
      → LeavesKeys handler
      → Ends codec incoming.full_method key
          (unary_interceptor codec env incoming handler w).0
          (unary_interceptor codec env incoming handler w).1
  first_call-Ends handler w works h k = rw (deduplicated handler w) (
      deduplicate-Ends codec env works incoming.full_method key spec incoming handler w refl
        keyed.named h k)

  replayed :
      (handler : M Response) (w : World) (response : Response) (fields : Snapshot)
      → IsFaithful codec
      → Answers env
      → codec.to_fields response ≡ some fields
      → IsAnswered key ((snapshot_method_key incoming.full_method, incoming.full_method) ∷ fields) w
      → ((unary_interceptor codec env incoming handler w).0 ≡ ok response)
        × ((unary_interceptor codec env incoming handler w).1.committed ≡ w.committed)
  unfolding deduplicate replay_or_run ◌>>=◌ map_error lift
  replayed handler w response fields faithful works e h =
      let (answered, unchanged) =
        begin_answered env key spec.scope spec.resource_type incoming.resource_id _ w works
          keyed.named h in
      rw (deduplicated handler w) (
        rw answered
          (rw (read_back codec faithful incoming.full_method response fields e) (refl, unchanged)))

  -- A call whose key's record is in flight is answered with Aborted and leaves the tables as they
  -- are, whatever its handler would do, where the database and Redis answer.
  pub call_in_flight_aborted :
      (handler : M Response) (w : World)
      → Answers env
      → IsInFlight key w
      → ((unary_interceptor codec env incoming handler w).0 ≡ err (status aborted))
        × ((unary_interceptor codec env incoming handler w).1.committed ≡ w.committed)
  unfolding deduplicate ◌>>=◌ map_error map_domain_error
  call_in_flight_aborted handler w works h =
      let (refused, unchanged) =
        begin_in_flight env key spec.scope spec.resource_type incoming.resource_id w works
          keyed.named h in
      rw (deduplicated handler w) (rw refused (refl, unchanged))

  -- A first call with a key that returns an error, whatever failed in its handler, leaves the key
  -- free, where the database and Redis answer the interceptor and the handler ends its
  -- transactions and leaves the interceptor's records and cached responses alone.
  pub failed_call_frees_key :
      (handler : M Response) (w : World) (e : Error)
      → Answers env
      → IsAbsent key w
      → LeavesKeys handler
      → (unary_interceptor codec env incoming handler w).0 ≡ err e
      → IsAbsent key (unary_interceptor codec env incoming handler w).1
  failed_call_frees_key handler w e works h k failed =
      subst
        (λ r.
          Ends codec incoming.full_method key r (unary_interceptor codec env incoming handler w).1)
        failed (first_call-Ends handler w works h k)

-- A call with a fresh key that returned a response, made again with that key where the database
-- and Redis answer the interceptor both times, returns the same response and changes no table,
-- whatever its handler would do; the first handler ends its transactions and leaves the
-- interceptor's records and cached responses alone, and the messages of the method can be read
-- back.
pub repeated_call_replays :
    {Response : Type 0} (codec : Codec Response) (env env' : Env) (incoming : Incoming)
    (spec : MethodSpec) (key : Text) (handler handler' : M Response) (w : World)
    (response : Response)
    → IsFaithful codec
    → IsKeyed env incoming spec key
    → IsKeyed env' incoming spec key
    → Answers env
    → Answers env'
    → IsAbsent key w
    → LeavesKeys handler
    → (unary_interceptor codec env incoming handler w).0 ≡ ok response
    → ((unary_interceptor codec env' incoming handler'
          (arriving (unary_interceptor codec env incoming handler w).1)).0
        ≡ ok response)
      × ((unary_interceptor codec env' incoming handler'
            (arriving (unary_interceptor codec env incoming handler w).1)).1.committed
          ≡ (unary_interceptor codec env incoming handler w).1.committed)
repeated_call_replays codec env env' incoming spec key handler handler' w response faithful keyed
      keyed' works works' h k returned =
    let (fields, (e, answered)) =
      subst
        (λ r.
          Ends codec incoming.full_method key r (unary_interceptor codec env incoming handler w).1)
        returned (first_call-Ends codec env incoming spec key keyed handler w works h k) in
    replayed codec env' incoming spec key keyed' handler' _ response fields faithful works' e
      (record {
        outside = refl;
        row = answered.row;
        known = answered.known;
        found = answered.found;
        is_completed = answered.is_completed;
        response = answered.response;
        entry = answered.entry;
      })

-- After a call with a fresh key that returned an error, a call with that key runs its handler:
-- when the handler returns a response that can be written, in the state that the guard leaves to
-- it, the call is answered with that response. The database and Redis answer the interceptor both
-- times, and both handlers end their transactions and leave the interceptor's records and cached
-- responses alone.
pub retry_after_failure :
    {Response : Type 0} (codec : Codec Response) (env env' : Env) (incoming : Incoming)
    (spec : MethodSpec) (key : Text) (handler handler' : M Response) (w : World) (e : Error)
    (response : Response) (fields : Snapshot)
    → IsKeyed env incoming spec key
    → IsKeyed env' incoming spec key
    → Answers env
    → Answers env'
    → IsAbsent key w
    → LeavesKeys handler
    → LeavesKeys handler'
    → (unary_interceptor codec env incoming handler w).0 ≡ err e
    → codec.to_fields response ≡ some fields
    → (handler'
        (begin env' key spec.scope spec.resource_type incoming.resource_id
          (arriving (unary_interceptor codec env incoming handler w).1)).1).0
      ≡ ok response
    → (unary_interceptor codec env' incoming handler'
        (arriving (unary_interceptor codec env incoming handler w).1)).0
      ≡ ok response
retry_after_failure codec env env' incoming spec key handler handler' w e response fields keyed
      keyed' works works' h k k' failed writes returns =
    let after = arriving (unary_interceptor codec env incoming handler w).1 in
    let freed =
      failed_call_frees_key codec env incoming spec key keyed handler w e works h k failed in
    rw (deduplicated codec env' incoming spec key keyed' handler' after) (
      deduplicate_returns codec env' works' incoming.full_method key response fields writes spec
        incoming handler' after refl keyed'.named
        (record { outside = refl; no_record = freed.no_record; no_entry = freed.no_entry }) k'
        returns)
