-- ===== src/Store/Atomic.antt =====
-- Actions of an open transaction that keep it open and keep a property of the committed tables,
-- which they reach through the pool alone.
use airbar_finance.Prelude.{◌≡◌, ◌≢◌, refl, Bool, ◌||◌, Option, none, some, inl, inr, Bool-cases}
use airbar_finance.Domain.Errors.{Error}
use airbar_finance.Store.World.{
  Db, Env, World, Result, ok, err, M, ◌>>=◌, pure, fail, lift, map_error, ignore, fail_if, continue,
}
use airbar_finance.Store.Sql.{
  Outcome, done, violates, Statement, after, on_pool, on_connection, on_querier, commit_pool,
  settle, new_uuid, now_utc,
}
use airbar_finance.Store.Keeps.{Preserves}

pub record Within (Q : Db → Type 0) (w : World) : Type 0 where
  pub open_tx : w.tx ≢ none
  pub of_committed : Q w.committed

pub record Shields {A : Type 0} (Q : Db → Type 0) (m : M A) : Type 0 where
  pub at : (w : World) → Within Q w → Within Q (m w).1

pub some-ne-none : (v : Db) → some v ≢ none
some-ne-none v e = cc e

module _ {Q : Db → Type 0} {A : Type 0} where
  pub Shields-pure : (a : A) → Shields Q (pure a)
  unfolding pure
  Shields-pure a = record { at = λ w h. h }

  pub Shields-lift : (r : Result A) → Shields Q (lift r)
  unfolding lift
  Shields-lift r = record { at = λ w h. h }

  pub Shields-fail : (e : Error) → Shields Q (fail {A = A} e)
  unfolding fail
  Shields-fail e = record { at = λ w h. h }

  pub Shields-ignore : (m : M A) → Shields Q m → Shields Q (ignore m)
  unfolding ignore
  Shields-ignore m k = record { at = k.at }

  pub Shields-map_error : (f : Error → Error) (m : M A) → Shields Q m → Shields Q (map_error f m)
  unfolding map_error
  Shields-map_error f m k = record { at = k.at }

  commit_pool-Within :
      (o : Outcome A) (stmt : Statement A) (t : Option Db) (w : World)
      → w.tx ≡ t
      → Q (after o w.committed)
      → Within Q w
      → Within Q (commit_pool o stmt w).1
  commit_pool-Within (violates e) stmt t w x q h = record {
    open_tx = h.open_tx;
    of_committed = h.of_committed;
  }
  commit_pool-Within (done a d) stmt none w x q h = absurd (h.open_tx x)
  commit_pool-Within (done a d) stmt (some v) w x q h = record {
    open_tx = rw x (some-ne-none (after (stmt v) v));
    of_committed = q;
  }

  pub Shields-on_pool :
      (env : Env) (stmt : Statement A) → Preserves Q stmt → Shields Q (on_pool env stmt)
  unfolding on_pool
  Shields-on_pool env stmt k = record {
    at = λ w h. elim (Bool-cases (env.fails w.tick)) [
      | inl e ↦ rw e (record { open_tx = h.open_tx; of_committed = h.of_committed })
      | inr e ↦
          rw e (commit_pool-Within (stmt w.committed) stmt w.tx w refl (k.at _ h.of_committed) h)
    ];
  }

  settle-Within : (o : Outcome A) (w : World) → Within Q w → Within Q (settle o w).1
  settle-Within (done a d) w h = record { open_tx = some-ne-none d; of_committed = h.of_committed }
  settle-Within (violates e) w h = record { open_tx = h.open_tx; of_committed = h.of_committed }

  on_connection-Within :
      (env : Env) (t : Option Db) (stmt : Statement A) (w : World)
      → w.tx ≡ t
      → Within Q w
      → Within Q (on_connection env t stmt w).1
  unfolding on_connection
  on_connection-Within env none stmt w x h = absurd (h.open_tx x)
  on_connection-Within env (some v) stmt w x h = elim (Bool-cases (env.fails w.tick || w.broken)) [
    | inl e ↦ rw e (record { open_tx = h.open_tx; of_committed = h.of_committed })
    | inr e ↦ rw e (settle-Within (stmt v) w h)
  ]

  -- A statement of the transaction does not reach the committed tables.
  pub Shields-on_querier : (env : Env) (stmt : Statement A) → Shields Q (on_querier env stmt)
  unfolding on_querier
  Shields-on_querier env stmt = record { at = λ w h. on_connection-Within env w.tx stmt w refl h }

module _ {Q : Db → Type 0} {A B : Type 0} where
  continue-Within :
      (r : Result A) (f : A → M B) (w : World)
      → ((a : A) → Shields Q (f a))
      → Within Q w
      → Within Q (continue r f w).1
  continue-Within (ok a) f w k h = (k a).at w h
  continue-Within (err e) f w k h = h

  pub Shields-bind :
      (m : M A) (f : A → M B) → Shields Q m → ((a : A) → Shields Q (f a)) → Shields Q (m >>= f)
  unfolding ◌>>=◌
  Shields-bind m f km kf = record {
    at = λ w h. let (r, w') = m w in continue-Within r f w' kf (km.at w h);
  }

module _ {Q : Db → Type 0} where
  pub Shields-new_uuid : (env : Env) → Shields Q (new_uuid env)
  unfolding new_uuid
  Shields-new_uuid env = record { at = λ w h. h }

  pub Shields-now_utc : (env : Env) → Shields Q (now_utc env)
  unfolding now_utc
  Shields-now_utc env = record { at = λ w h. h }

  pub Shields-fail_if : (b : Bool) (e : Error) → Shields Q (fail_if b e)
  unfolding fail_if
  Shields-fail_if b e = record { at = λ w h. h }

pub ruleset shields_rules = (
  Shields-pure, Shields-lift, Shields-fail, Shields-ignore, Shields-map_error, Shields-on_pool,
  Shields-on_querier, Shields-bind, Shields-new_uuid, Shields-now_utc, Shields-fail_if,
)
