-- ===== src/Escrow/Lifecycle/Created.antt =====
-- A new escrow and its lookup by shipment: internal/usecase/escrow/create_escrow.go.
use airbar_finance.Prelude.{
  Bool, true, false, ◌≡◌, refl, sym, ap, ◌∙◌, Option, none, some, ◌++◌, [], ◌∷◌, any, inl, inr,
  Bool-cases,
}
use airbar_finance.Prelude.Int.{pos, leb_ℤ}
use airbar_finance.Prelude.Text.{same}
use airbar_finance.Domain.Errors.{escrow, invalid_amount}
use airbar_finance.Domain.Escrow.{Escrow}
use airbar_finance.Store.World.{
  Db, Env, World, Result, ok, err, M, ◌>>=◌, ◌>>◌, pure, ignore, fail_if, continue, remap,
  map_error,
}
use airbar_finance.Store.Sql.{
  Outcome, done, violates, on_querier, on_connection, on_pool, commit_pool, new_uuid, now_utc,
}
use airbar_finance.Store.Keeps.{Holds, Keeps, Keeps-bind, Keeps-ignore, Keeps-pure}
use airbar_finance.Audit.{emit-Keeps, emit_escrow_created}
use airbar_finance.Escrow.Status.{status_text}
use airbar_finance.Escrow.Repository.{
  inserted_row, insert_escrow, duplicate_escrow_error, create, select_escrow,
}
use airbar_finance.Escrow.Repository.RoundTrip.{found, find-appended}
use airbar_finance.Escrow.Lifecycle.{CreateEscrowInput, new_escrow, create_escrow}

-- The row is found by its shipment.
abbrev IsFound : Escrow → Db → Type 0
IsFound row d = found row.shipment_id d ≡ some row

module _ (row : Escrow) (whole : inserted_row row ≡ row) where
  inserted-found : (d e : Db) → insert_escrow row d ≡ done tt e → IsFound row e
  unfolding insert_escrow
  inserted-found d e h = elim (Bool-cases (leb_ℤ row.amount (pos 0))) [
    | inl bad ↦ cc (rw bad at h)
    | inr good ↦ elim (Bool-cases (any (λ r. same r.shipment_id row.shipment_id) d.escrows)) [
      | inl taken ↦ cc (rw (good, taken) at h)
      | inr free ↦
          let table : record d { escrows = d.escrows ++ (inserted_row row ∷ []) } ≡ e =
            cc (rw (good, free) at h) in
          ap (found row.shipment_id) (sym table)
          ∙ (ap (λ x. found row.shipment_id (record d { escrows = d.escrows ++ (x ∷ []) })) whole
              ∙ find-appended row d.escrows free)
    ]
  ]

  connected :
      (env : Env) (t : Option Db) (w : World)
      → w.tx ≡ t
      → t ≡ none
      → (on_connection env t (insert_escrow row) w).0 ≡ ok tt
      → Holds (IsFound row) (on_connection env t (insert_escrow row) w).1
  unfolding on_connection on_pool
  connected env (some v) w x n h = cc n
  connected env none w x n h = elim (Bool-cases (env.fails w.tick)) [
    | inl f ↦ cc (rw f at h)
    | inr f ↦ rw f (go (insert_escrow row w.committed) refl (rw f at h))
  ]
    where
      go :
          (o : Outcome (Unit {0}))
          → insert_escrow row w.committed ≡ o
          → (commit_pool o (insert_escrow row) w).0 ≡ ok tt
          → Holds (IsFound row) (commit_pool o (insert_escrow row) w).1
      go (done a d) q k = record {
        of_committed = inserted-found w.committed d q;
        of_view = rw x tt;
      }
      go (violates e) q k = cc k

  -- The insertion with its error mapped, and then the row.
  stored :
      (env : Env) (w : World) (b : Escrow)
      → w.tx ≡ none
      → ((map_error duplicate_escrow_error (on_querier env (insert_escrow row)) >> pure row) w).0
        ≡ ok b
      → Holds
          (IsFound b)
          ((map_error duplicate_escrow_error (on_querier env (insert_escrow row)) >> pure row) w).1
  unfolding ◌>>=◌ map_error pure on_querier
  stored env w b n h =
      go (on_connection env w.tx (insert_escrow row) w).0
        (on_connection env w.tx (insert_escrow row) w).1 (λ e. connected env w.tx w refl n e) h
    where
      go :
          (r : Result (Unit {0})) (v : World)
          → (r ≡ ok tt → Holds (IsFound row) v)
          → (continue (remap duplicate_escrow_error r) (λ _. pure row) v).0 ≡ ok b
          → Holds (IsFound b) (continue (remap duplicate_escrow_error r) (λ _. pure row) v).1
      go (ok u) v k h = let same_row : row ≡ b = cc h in rw (sym same_row) (k refl)
      go (err e) v k h = cc h

module _ (env : Env) where
  created-found :
      (e b : Escrow) (w : World)
      → inserted_row e ≡ e
      → w.tx ≡ none
      → (create env e w).0 ≡ ok b
      → Holds (IsFound b) (create env e w).1
  unfolding create ◌>>=◌ new_uuid now_utc inserted_row
  created-found e b w whole n h =
      stored
        (record e {
          id = env.uuid w.tick;
          created_at = env.clock w.tick;
          updated_at = env.clock w.tick;
        })
        (ap {A = Escrow}
          (λ x. record x {
            id = env.uuid w.tick;
            created_at = env.clock w.tick;
            updated_at = env.clock w.tick;
          })
          whole)
        env w b n h

  announce : Escrow → M Escrow
  announce e = ignore (emit_escrow_created env e.id e.shipment_id (status_text e.status)) >> pure e

  announce-Keeps : (row e : Escrow) → Keeps (IsFound row) (announce e)
  unfolding announce emit_escrow_created
  announce-Keeps row e =
      Keeps-bind _ _ (Keeps-ignore _ (emit-Keeps (λ rows d h. h) env _ _ _ _)) (λ u. Keeps-pure e)

  announced :
      (r : Result Escrow) (v : World) (b : Escrow)
      → ((a : Escrow) → r ≡ ok a → Holds (IsFound a) v)
      → (continue r announce v).0 ≡ ok b
      → Holds (IsFound b) (continue r announce v).1
  unfolding announce ◌>>=◌ ignore pure
  announced (ok a) v b k h =
      let same_row : a ≡ b = cc h in rw (sym same_row) ((announce-Keeps a a).at v (k a refl))
  announced (err e) v b k h = cc h

  checked :
      (unnamed unpaid : Bool) (input : CreateEscrowInput) (w : World) (b : Escrow)
      → w.tx ≡ none
      → ((fail_if unnamed (escrow invalid_amount)
            >> (fail_if unpaid (escrow invalid_amount)
                >> (create env (new_escrow input) >>= announce)))
          w).0
        ≡ ok b
      → Holds
          (IsFound b)
          ((fail_if unnamed (escrow invalid_amount)
              >> (fail_if unpaid (escrow invalid_amount)
                  >> (create env (new_escrow input) >>= announce)))
            w).1
  unfolding ◌>>=◌ fail_if inserted_row
  checked true unpaid input w b n h = cc h
  checked false true input w b n h = cc h
  checked false false input w b n h =
      announced (create env (new_escrow input) w).0 (create env (new_escrow input) w).1 b
        (λ a. created-found (new_escrow input) a w refl n) h

-- When the creation of an escrow outside of a transaction returns an escrow, whichever of its
-- calls failed, the SELECT by its shipment gives that same escrow from the committed tables.
pub created_escrow_found :
    (env : Env) (input : CreateEscrowInput) (w : World) (e : Escrow)
    → w.tx ≡ none
    → (create_escrow env input w).0 ≡ ok e
    → select_escrow e.shipment_id (create_escrow env input w).1.committed
      ≡ done (some e) (create_escrow env input w).1.committed
unfolding create_escrow select_escrow announce
created_escrow_found env input w e n h =
    ap (λ o. done o (create_escrow env input w).1.committed)
      (checked env _ _ input w e n h).of_committed
