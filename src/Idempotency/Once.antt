-- ===== src/Idempotency/Once.antt =====
-- A call that is made again with the same key.
use airbar_finance.Prelude.{
  suc, ◌≡◌, refl, true, false, Option, none, some, List, [], ◌∷◌, ◌++◌, arith,
}
use airbar_finance.Prelude.Text.{Text, same_refl, is_empty}
use airbar_finance.Domain.Idempotency.{Record, Snapshot}
use airbar_finance.Store.World.{
  Env, World, Result, ok, err, M, ◌>>=◌, pure, fail, ignore, map_error,
}
use airbar_finance.Store.Sql.{advance}
use airbar_finance.Idempotency.Repository.{in_flight, is_processing}
use airbar_finance.Idempotency.Guard.{begin}
use airbar_finance.Idempotency.Methods.{MethodSpec, snapshot_method_key}
use airbar_finance.Idempotency.Interceptor.{
  Incoming, Codec, IsFaithful, differs, names_another, response_to_snapshot, snapshot_to_response,
  store_response, after_handler, run_handler, replay_or_run, deduplicate,
}
use airbar_finance.Idempotency.Replay.{
  Answers, with_records, IsAbsent, IsAnswered, row_at, begin_absent,
}
use airbar_finance.Idempotency.Finish.{IsAcquired, complete_acquired, rollback_acquired}

-- A handler starts no transaction that it does not end, and leaves the records and cached responses
-- of the interceptor alone.
pub record LeavesKeys {A : Type 0} (handler : M A) : Type 0 where
  pub outside : (w : World) → w.tx ≡ none → (handler w).1.tx ≡ none
  pub records :
      (w : World) → (handler w).1.committed.idempotency_records ≡ w.committed.idempotency_records
  pub cache : (w : World) → (handler w).1.cache ≡ w.cache

-- A response is stored under the key, or the key is free.
abbrev pub Ends :
    {Response : Type 0} → Codec Response → Text → Text → Result Response → World → Type 0
Ends codec full_method key (ok response) w =
    (fields : Snapshot) × ((codec.to_fields response ≡ some fields)
      × IsAnswered key ((snapshot_method_key full_method, full_method) ∷ fields) w)
Ends codec full_method key (err e) w = IsAbsent key w

module _ {Response : Type 0} (codec : Codec Response) (env : Env) (works : Answers env)
    (full_method key : Text) where
  stored-Ends :
      (response : Response) (old : List Record) (w : World) (o : Option Snapshot)
      → codec.to_fields response ≡ o
      → IsAcquired key old w
      → Ends codec full_method key
          (after_handler codec env full_method key (ok response) w).0
          (after_handler codec env full_method key (ok response) w).1
  unfolding after_handler response_to_snapshot store_response ignore fail ◌>>=◌ map_error pure
  stored-Ends response old w none e h = rw e (
      rw (rollback_acquired env key old w works h)
        (record { outside = h.outside; no_record = h.others; no_entry = h.no_entry }))
  stored-Ends response old w (some fields) e h =
      let snapshot : Snapshot = (snapshot_method_key full_method, full_method) ∷ fields in
      let (completes, answered) = complete_acquired env key snapshot old w works h in
      rw e (rw completes (fields, (e, answered)))

  after_handler-Ends :
      (r : Result Response) (old : List Record) (w : World)
      → IsAcquired key old w
      → Ends codec full_method key
          (after_handler codec env full_method key r w).0
          (after_handler codec env full_method key r w).1
  unfolding after_handler ignore fail ◌>>=◌
  after_handler-Ends (ok response) old w h =
      stored-Ends response old w (codec.to_fields response) refl h
  after_handler-Ends (err e) old w h =
      rw (rollback_acquired env key old w works h)
        (record { outside = h.outside; no_record = h.others; no_entry = h.no_entry })

  acquired :
      (row : Record) (handler : M Response) (w : World)
      → in_flight key row ≡ true
      → IsAbsent key w
      → LeavesKeys handler
      → IsAcquired key w.committed.idempotency_records
          (handler
            (advance (advance (with_records (w.committed.idempotency_records ++ (row ∷ [])) w)))).1
  acquired row handler w opened h k =
      let taken : World =
        advance (advance (with_records (w.committed.idempotency_records ++ (row ∷ [])) w)) in
      record {
        outside = k.outside taken h.outside;
        row = row;
        opened = opened;
        others = h.no_record;
        records = k.records taken;
        no_entry = rw (k.cache taken) h.no_entry;
      }

  pub deduplicate-Ends :
      (spec : MethodSpec) (incoming : Incoming) (handler : M Response) (w : World)
      → incoming.full_method ≡ full_method
      → is_empty key ≡ false
      → IsAbsent key w
      → LeavesKeys handler
      → Ends codec full_method key
          (deduplicate codec env spec key incoming handler w).0
          (deduplicate codec env spec key incoming handler w).1
  unfolding deduplicate replay_or_run run_handler ◌>>=◌ map_error in_flight is_processing
  deduplicate-Ends spec incoming handler w m named h k =
      rw (begin_absent env key spec.scope spec.resource_type incoming.resource_id w works named h) (
        rw m (
          after_handler-Ends _ w.committed.idempotency_records _ (
            acquired
              (row_at key spec.scope spec.resource_type incoming.resource_id
                (env.clock (suc w.tick)))
              handler w (rw (same_refl key) refl) h k)))

module _ {Response : Type 0} (codec : Codec Response) (env : Env) (works : Answers env)
    (full_method key : Text) (response : Response) (fields : Snapshot)
    (writes : codec.to_fields response ≡ some fields) where
  stored_response :
      (r : Result Response) (old : List Record) (w : World)
      → r ≡ ok response
      → IsAcquired key old w
      → (after_handler codec env full_method key r w).0 ≡ ok response
  unfolding after_handler response_to_snapshot store_response ◌>>=◌ map_error pure
  stored_response r old w e h =
      let snapshot : Snapshot = (snapshot_method_key full_method, full_method) ∷ fields in
      let (completes, answered) = complete_acquired env key snapshot old w works h in
      rw e (rw writes (rw completes refl))

  -- Where the handler returns a response in the state that the guard leaves, so does the
  -- interceptor.
  pub deduplicate_returns :
      (spec : MethodSpec) (incoming : Incoming) (handler : M Response) (w : World)
      → incoming.full_method ≡ full_method
      → is_empty key ≡ false
      → IsAbsent key w
      → LeavesKeys handler
      → (handler (begin env key spec.scope spec.resource_type incoming.resource_id w).1).0
        ≡ ok response
      → (deduplicate codec env spec key incoming handler w).0 ≡ ok response
  unfolding deduplicate replay_or_run run_handler ◌>>=◌ map_error in_flight is_processing
  deduplicate_returns spec incoming handler w m named h k returns =
      let began =
        begin_absent env key spec.scope spec.resource_type incoming.resource_id w works named h in
      rw began (
        rw m (
          stored_response _ w.committed.idempotency_records _ (rw began at returns) (
            acquired codec env works full_method key
              (row_at key spec.scope spec.resource_type incoming.resource_id
                (env.clock (suc w.tick)))
              handler w (rw (same_refl key) refl) h k)))

differs_self : (method : Text) → differs method (some method) ≡ false
differs_self method = rw (same_refl method) (ground arith)

named_itself :
    (method : Text) (fields : Snapshot)
    → names_another method ((snapshot_method_key method, method) ∷ fields) ≡ false
unfolding names_another
named_itself method fields = rw (same_refl (snapshot_method_key method)) (differs_self method)

pub read_back :
    {Response : Type 0} (codec : Codec Response)
    → IsFaithful codec
    → (method : Text) (response : Response) (fields : Snapshot)
    → codec.to_fields response ≡ some fields
    → snapshot_to_response codec method ((snapshot_method_key method, method) ∷ fields)
      ≡ ok response
unfolding snapshot_to_response
read_back codec faithful method response fields e =
    rw (named_itself method fields) (rw (faithful.reads_back response fields method e) refl)
