-- ===== src/Store/Keeps.antt =====
-- Invariants of actions: what holds of the committed tables, and of an open transaction's that is
-- not broken, whatever calls fail.
use mathlib.Core.Option
use airbar_finance.Prelude.{
  suc, ◌≡◌, ◌≢◌, refl, Bool, ◌||◌, true, false, Option, none, some, inl, inr, arith, Bool-cases,
}
use airbar_finance.Domain.Errors.{Error}
use airbar_finance.Store.World.{
  Db, Env, World, Result, ok, err, M, ◌>>=◌, pure, fail, lift, map_error, ignore, fail_if, continue,
}
use airbar_finance.Store.Sql.{
  Outcome, done, violates, Statement, after, on_pool, on_view, on_connection, on_querier, with_tx,
  commit_pool, settle, commit, finish, new_uuid, now_utc,
}

abbrev pub HoldsOfView : (Db → Type 0) → Option Db → Bool → Type 0
HoldsOfView P none b = Unit
HoldsOfView P (some v) true = Unit
HoldsOfView P (some v) false = P v

pub record Holds (P : Db → Type 0) (w : World) : Type 0 where
  pub of_committed : P w.committed
  pub of_view : HoldsOfView P w.tx w.broken

pub record Keeps {A : Type 0} (P : Db → Type 0) (m : M A) : Type 0 where
  pub at : (w : World) → Holds P w → Holds P (m w).1

-- A statement keeps `P` of the tables.
pub record Preserves {A : Type 0} (P : Db → Type 0) (stmt : Statement A) : Type 0 where
  pub at : (d : Db) → P d → P (after (stmt d) d)

broken_view : (P : Db → Type 0) (t : Option Db) → HoldsOfView P t true
broken_view P none = tt
broken_view P (some v) = tt

abbrev begun : World → World
begun w = record w { tx = some w.committed; broken = false; tick = suc w.tick }

module _ {P : Db → Type 0} {A : Type 0} where
  pub Keeps-pure : (a : A) → Keeps P (pure a)
  unfolding pure
  Keeps-pure a = record { at = λ w h. h }

  pub Keeps-fail : (e : Error) → Keeps P (fail {A = A} e)
  unfolding fail
  Keeps-fail e = record { at = λ w h. h }

  pub Keeps-lift : (r : Result A) → Keeps P (lift r)
  unfolding lift
  Keeps-lift r = record { at = λ w h. h }

  pub Keeps-ignore : (m : M A) → Keeps P m → Keeps P (ignore m)
  unfolding ignore
  Keeps-ignore m k = record { at = k.at }

  pub Keeps-map_error : (f : Error → Error) (m : M A) → Keeps P m → Keeps P (map_error f m)
  unfolding map_error
  Keeps-map_error f m k = record { at = k.at }

  commit_pool-Holds :
      (o : Outcome A) (stmt : Statement A) (w : World)
      → Preserves P stmt
      → P (after o w.committed)
      → Holds P w
      → Holds P (commit_pool o stmt w).1
  commit_pool-Holds (violates e) stmt w k p h = record {
    of_committed = h.of_committed;
    of_view = h.of_view;
  }
  commit_pool-Holds (done a d) stmt w k p h = record {
    of_committed = p;
    of_view = view w.tx w.broken h.of_view;
  }
    where
      view :
          (t : Option Db) (b : Bool)
          → HoldsOfView P t b
          → HoldsOfView P (Option.map (λ v. after (stmt v) v) t) b
      view none b hv = tt
      view (some v) true hv = tt
      view (some v) false hv = k.at v hv

  pub Keeps-on_pool :
      (env : Env) (stmt : Statement A) → Preserves P stmt → Keeps P (on_pool env stmt)
  unfolding on_pool
  Keeps-on_pool env stmt k = record {
    at = λ w h. elim (Bool-cases (env.fails w.tick)) [
      | inl e ↦ rw e (record { of_committed = h.of_committed; of_view = h.of_view })
      | inr e ↦ rw e (commit_pool-Holds (stmt w.committed) stmt w k (k.at _ h.of_committed) h)
    ];
  }

  settle-Holds :
      (o : Outcome A) (v : Db) (w : World)
      → w.broken ≡ false
      → P (after o v)
      → P w.committed
      → Holds P (settle o w).1
  settle-Holds (done a d) v w b p c = record { of_committed = c; of_view = rw b p }
  settle-Holds (violates e) v w b p c = record { of_committed = c; of_view = broken_view P w.tx }

  on_view-Holds :
      (env : Env) (stmt : Statement A) (v : Db) (w : World)
      → Preserves P stmt
      → (w.broken ≡ false → P v)
      → P w.committed
      → Holds P (on_view env stmt v w).1
  unfolding on_view
  on_view-Holds env stmt v w k hv c = elim (Bool-cases (env.fails w.tick || w.broken)) [
    | inl e ↦ rw e (record { of_committed = c; of_view = broken_view P w.tx })
    | inr e ↦
        let whole : w.broken ≡ false = ground arith in
        rw e (settle-Holds (stmt v) v w whole (k.at v (hv whole)) c)
  ]

  on_connection-Holds :
      (env : Env) (t : Option Db) (stmt : Statement A) (w : World)
      → Preserves P stmt
      → HoldsOfView P t w.broken
      → Holds P w
      → Holds P (on_connection env t stmt w).1
  unfolding on_connection
  on_connection-Holds env none stmt w k hv h = (Keeps-on_pool env stmt k).at w h
  on_connection-Holds env (some v) stmt w k hv h =
      on_view-Holds env stmt v w k (λ whole. rw whole at hv) h.of_committed

  pub Keeps-on_querier :
      (env : Env) (stmt : Statement A) → Preserves P stmt → Keeps P (on_querier env stmt)
  unfolding on_querier
  Keeps-on_querier env stmt k = record {
    at = λ w h. on_connection-Holds env w.tx stmt w k h.of_view h;
  }

  commit-Holds :
      (env : Env) (t : Option Db) (a : A) (w : World)
      → HoldsOfView P t w.broken
      → P w.committed
      → Holds P (commit env t a w).1
  commit-Holds env none a w hv c = record { of_committed = c; of_view = tt }
  commit-Holds env (some v) a w hv c = elim (Bool-cases (env.fails w.tick || w.broken)) [
    | inl e ↦ rw e (record { of_committed = c; of_view = tt })
    | inr e ↦
        let whole : w.broken ≡ false = ground arith in
        rw e (record { of_committed = rw whole at hv; of_view = tt })
  ]

  finish-Holds : (env : Env) (r : Result A) (w : World) → Holds P w → Holds P (finish env r w).1
  finish-Holds env (err e) w h = record { of_committed = h.of_committed; of_view = tt }
  finish-Holds env (ok a) w h = commit-Holds env w.tx a w h.of_view h.of_committed

  -- Within WithTx a transaction is open.
  pub Keeps-with_open_tx :
      (env : Env) (m : M A)
      → ((w : World) → w.tx ≢ none → Holds P w → Holds P (m w).1)
      → Keeps P (with_tx env m)
  unfolding with_tx
  Keeps-with_open_tx env m k = record {
    at = λ w h. elim (Bool-cases (env.fails w.tick)) [
      | inl e ↦ rw e (record { of_committed = h.of_committed; of_view = h.of_view })
      | inr e ↦ rw e (
          finish-Holds env (m (begun w)).0 (m (begun w)).1 (
            k (begun w) (λ n. cc)
              (record { of_committed = h.of_committed; of_view = h.of_committed })))
    ];
  }

  pub Keeps-with_tx : (env : Env) (m : M A) → Keeps P m → Keeps P (with_tx env m)
  Keeps-with_tx env m k = Keeps-with_open_tx env m (λ w open_tx. k.at w)

module _ {P : Db → Type 0} {A B : Type 0} where
  Keeps-continue :
      (r : Result A) (f : A → M B) (w : World)
      → ((a : A) → Keeps P (f a))
      → Holds P w
      → Holds P (continue r f w).1
  Keeps-continue (ok a) f w k h = (k a).at w h
  Keeps-continue (err e) f w k h = h

  pub Keeps-bind :
      (m : M A) (f : A → M B) → Keeps P m → ((a : A) → Keeps P (f a)) → Keeps P (m >>= f)
  unfolding ◌>>=◌
  Keeps-bind m f km kf = record {
    at = λ w h. let (r, w') = m w in Keeps-continue r f w' kf (km.at w h);
  }

  -- The rest may use that a computed value is no error.
  pub Keeps-bind-lift :
      (r : Result A) (f : A → M B) → ((a : A) → r ≡ ok a → Keeps P (f a)) → Keeps P (lift r >>= f)
  unfolding ◌>>=◌
  Keeps-bind-lift (ok a) f k = record { at = (k a refl).at }
  Keeps-bind-lift (err e) f k = record { at = λ w h. h }

module _ {P : Db → Type 0} where
  pub Keeps-new_uuid : (env : Env) → Keeps P (new_uuid env)
  unfolding new_uuid
  Keeps-new_uuid env = record { at = λ w h. h }

  pub Keeps-now_utc : (env : Env) → Keeps P (now_utc env)
  unfolding now_utc
  Keeps-now_utc env = record { at = λ w h. h }

  pub Keeps-fail_if : (b : Bool) (e : Error) → Keeps P (fail_if b e)
  unfolding fail_if
  Keeps-fail_if b e = record { at = λ w h. h }

pub ruleset keeps_rules = (
  Keeps-pure, Keeps-fail, Keeps-lift, Keeps-ignore, Keeps-map_error, Keeps-on_pool,
  Keeps-on_querier, Keeps-with_tx, Keeps-bind, Keeps-new_uuid, Keeps-now_utc, Keeps-fail_if,
)
