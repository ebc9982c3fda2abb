-- ===== src/Idempotency/Leaves.antt =====
-- Actions that leave the records and cached responses of the interceptor alone, such as those of a
-- handler that opens no transaction.
pub mod Escrows
use airbar_finance.Prelude.{◌≡◌, refl, ◌∙◌, Bool, Option, none, some, inl, inr, Bool-cases, ◌||◌}
use airbar_finance.Domain.Errors.{Error}
use airbar_finance.Store.World.{
  Db, Env, World, Result, ok, err, M, ◌>>=◌, pure, lift, map_error, ignore, fail_if, continue,
}
use airbar_finance.Store.Sql.{
  Outcome, done, violates, Statement, after, on_pool, on_view, on_connection, on_querier,
  commit_pool, settle, new_uuid, now_utc,
}
use airbar_finance.Store.Keeps.{Preserves}
use airbar_finance.Idempotency.Once.{LeavesKeys}

-- A statement that does not write the table of records.
pub record Avoids {A : Type 0} (stmt : Statement A) : Type 0 where
  pub at : (d : Db) → (after (stmt d) d).idempotency_records ≡ d.idempotency_records

-- What a statement on a connection leaves of the state.
record Leaves (t : Option Db) (w v : World) : Type 0 where
  outside : t ≡ none → v.tx ≡ none
  records : v.committed.idempotency_records ≡ w.committed.idempotency_records
  cache : v.cache ≡ w.cache

module _ {A : Type 0} where
  pub LeavesKeys-pure : (a : A) → LeavesKeys (pure a)
  unfolding pure
  LeavesKeys-pure a = record { outside = λ w e. e; records = λ w. refl; cache = λ w. refl }

  pub LeavesKeys-ignore : (m : M A) → LeavesKeys m → LeavesKeys (ignore m)
  unfolding ignore
  LeavesKeys-ignore m k = record { outside = k.outside; records = k.records; cache = k.cache }

  pub LeavesKeys-map_error :
      (f : Error → Error) (m : M A) → LeavesKeys m → LeavesKeys (map_error f m)
  unfolding map_error
  LeavesKeys-map_error f m k = record { outside = k.outside; records = k.records; cache = k.cache }

  pub LeavesKeys-lift : (r : Result A) → LeavesKeys (lift r)
  unfolding lift
  LeavesKeys-lift r = record { outside = λ w e. e; records = λ w. refl; cache = λ w. refl }

  on_connection-Leaves :
      (env : Env) (t : Option Db) (stmt : Statement A) (w : World)
      → w.tx ≡ t
      → Avoids stmt
      → Leaves t w (on_connection env t stmt w).1
  unfolding on_connection on_pool on_view
  on_connection-Leaves env none stmt w x a = elim (Bool-cases (env.fails w.tick)) [
    | inl f ↦ rw f (record { outside = λ e. x; records = refl; cache = refl })
    | inr f ↦ rw f (pooled (stmt w.committed) (a.at w.committed))
  ]
    where
      pooled :
          (o : Outcome A)
          → (after o w.committed).idempotency_records ≡ w.committed.idempotency_records
          → Leaves none w (commit_pool o stmt w).1
      pooled (done b d) e = record { outside = λ n. rw x refl; records = e; cache = refl }
      pooled (violates y) e = record { outside = λ n. x; records = refl; cache = refl }
  on_connection-Leaves env (some v) stmt w x a = elim (Bool-cases (env.fails w.tick || w.broken)) [
    | inl f ↦ rw f (record { outside = λ e. cc e; records = refl; cache = refl })
    | inr f ↦ rw f (settled (stmt v))
  ]
    where
      settled : (o : Outcome A) → Leaves (some v) w (settle o w).1
      settled (done b d) = record { outside = λ e. cc e; records = refl; cache = refl }
      settled (violates y) = record { outside = λ e. cc e; records = refl; cache = refl }

  pub LeavesKeys-on_querier :
      (env : Env) (stmt : Statement A) → Avoids stmt → LeavesKeys (on_querier env stmt)
  unfolding on_querier
  LeavesKeys-on_querier env stmt a = record {
    outside = λ w e. (on_connection-Leaves env w.tx stmt w refl a).outside e;
    records = λ w. (on_connection-Leaves env w.tx stmt w refl a).records;
    cache = λ w. (on_connection-Leaves env w.tx stmt w refl a).cache;
  }

module _ {A B : Type 0} where
  pub LeavesKeys-bind :
      (m : M A) (f : A → M B) → LeavesKeys m → ((a : A) → LeavesKeys (f a)) → LeavesKeys (m >>= f)
  unfolding ◌>>=◌
  LeavesKeys-bind m f km kf = record {
    outside = λ w e. outside (m w).0 (m w).1 (km.outside w e);
    records = λ w. records (m w).0 (m w).1 ∙ km.records w;
    cache = λ w. cache (m w).0 (m w).1 ∙ km.cache w;
  }
    where
      outside : (r : Result A) (v : World) → v.tx ≡ none → (continue r f v).1.tx ≡ none
      outside (ok a) v e = (kf a).outside v e
      outside (err x) v e = e

      records :
          (r : Result A) (v : World)
          → (continue r f v).1.committed.idempotency_records ≡ v.committed.idempotency_records
      records (ok a) v = (kf a).records v
      records (err x) v = refl

      cache : (r : Result A) (v : World) → (continue r f v).1.cache ≡ v.cache
      cache (ok a) v = (kf a).cache v
      cache (err x) v = refl

pub LeavesKeys-new_uuid : (env : Env) → LeavesKeys (new_uuid env)
unfolding new_uuid
LeavesKeys-new_uuid env = record { outside = λ w e. e; records = λ w. refl; cache = λ w. refl }

pub LeavesKeys-now_utc : (env : Env) → LeavesKeys (now_utc env)
unfolding now_utc
LeavesKeys-now_utc env = record { outside = λ w e. e; records = λ w. refl; cache = λ w. refl }

pub LeavesKeys-fail_if : (b : Bool) (e : Error) → LeavesKeys (fail_if b e)
unfolding fail_if
LeavesKeys-fail_if b e = record { outside = λ w e. e; records = λ w. refl; cache = λ w. refl }

pub ruleset leaves_rules = (
  LeavesKeys-pure, LeavesKeys-ignore, LeavesKeys-map_error, LeavesKeys-lift, LeavesKeys-on_querier,
  LeavesKeys-bind, LeavesKeys-new_uuid, LeavesKeys-now_utc, LeavesKeys-fail_if,
)
