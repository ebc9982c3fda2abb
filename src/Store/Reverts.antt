-- ===== src/Store/Reverts.antt =====
-- What WithTx leaves in the committed tables when it fails, and actions that keep a property of the
-- committed tables wherever they fail.
use airbar_finance.Prelude.{
  ◌≡◌, refl, Bool, false, ◌||◌, Option, none, some, inl, inr, Bool-cases, suc,
}
use airbar_finance.Domain.Errors.{Error}
use airbar_finance.Store.World.{
  Db, Env, World, Result, ok, err, M, ◌>>=◌, pure, fail, lift, fail_if, continue,
}
use airbar_finance.Store.Sql.{
  Outcome, done, violates, Statement, after, on_pool, on_connection, on_querier, with_tx,
  commit_pool, settle, commit, finish, now_utc,
}
use airbar_finance.Store.Keeps.{Preserves}
use airbar_finance.Store.Atomic.{Shields, some-ne-none}

module _ (Q : Db → Type 0) {A : Type 0} where
  commit-fails :
      (env : Env) (t : Option Db) (a : A) (w : World) (x : Error)
      → (commit env t a w).0 ≡ err x
      → Q w.committed
      → Q (commit env t a w).1.committed
  commit-fails env none a w x e q = q
  commit-fails env (some v) a w x e q = elim (Bool-cases (env.fails w.tick || w.broken)) [
    | inl f ↦ rw f q
    | inr f ↦ cc (rw f at e)
  ]

  finish-fails :
      (env : Env) (r : Result A) (w : World) (x : Error)
      → (finish env r w).0 ≡ err x
      → Q w.committed
      → Q (finish env r w).1.committed
  finish-fails env (err y) w x e q = q
  finish-fails env (ok a) w x e q = commit-fails env w.tx a w x e q

-- An action that fails keeps a property of the committed tables.
pub record Reverts {A : Type 0} (Q : Db → Type 0) (m : M A) : Type 0 where
  pub at : (w : World) (x : Error) → (m w).0 ≡ err x → Q w.committed → Q (m w).1.committed

-- An action keeps a property of the committed tables, transaction or not.
pub record Stays {A : Type 0} (Q : Db → Type 0) (m : M A) : Type 0 where
  pub at : (w : World) → Q w.committed → Q (m w).1.committed

module _ {Q : Db → Type 0} {A : Type 0} where
  -- A transaction that fails has left in the committed tables what its body wrote through the pool.
  pub Reverts-with_tx : (env : Env) (m : M A) → Shields Q m → Reverts Q (with_tx env m)
  unfolding with_tx
  Reverts-with_tx env m k = record {
    at = λ w x e q. elim (Bool-cases (env.fails w.tick)) [
      | inl f ↦ rw f q
      | inr f ↦
          let begun : World = record w {
            tx = some w.committed;
            broken = false;
            tick = suc w.tick;
          } in
          let h = k.at begun (record { open_tx = some-ne-none w.committed; of_committed = q }) in
          rw f (finish-fails Q env (m begun).0 (m begun).1 x (rw f at e) h.of_committed)
    ];
  }

  pub Stays-on_pool :
      (env : Env) (stmt : Statement A) → Preserves Q stmt → Stays Q (on_pool env stmt)
  unfolding on_pool
  Stays-on_pool env stmt k = record {
    at = λ w q. elim (Bool-cases (env.fails w.tick)) [
      | inl e ↦ rw e q
      | inr e ↦ rw e (committed_pool (stmt w.committed) w (k.at _ q))
    ];
  }
    where
      committed_pool :
          (o : Outcome A) (w : World)
          → Q (after o w.committed)
          → Q (commit_pool o stmt w).1.committed
      committed_pool (done a d) w q = q
      committed_pool (violates e) w q = q

  on_connection-Stays :
      (env : Env) (t : Option Db) (stmt : Statement A) (w : World)
      → Preserves Q stmt
      → Q w.committed
      → Q (on_connection env t stmt w).1.committed
  unfolding on_connection
  on_connection-Stays env none stmt w k q = (Stays-on_pool env stmt k).at w q
  on_connection-Stays env (some v) stmt w k q = elim (Bool-cases (env.fails w.tick || w.broken)) [
    | inl e ↦ rw e q
    | inr e ↦ rw e (settled (stmt v) w q)
  ]
    where
      settled : (o : Outcome A) (w : World) → Q w.committed → Q (settle o w).1.committed
      settled (done a d) w q = q
      settled (violates x) w q = q

  pub Stays-on_querier :
      (env : Env) (stmt : Statement A) → Preserves Q stmt → Stays Q (on_querier env stmt)
  unfolding on_querier
  Stays-on_querier env stmt k = record { at = λ w q. on_connection-Stays env w.tx stmt w k q }

  pub Reverts-Stays : (m : M A) → Stays Q m → Reverts Q m
  Reverts-Stays m k = record { at = λ w x e q. k.at w q }

  pub Stays-fail : (e : Error) → Stays Q (fail {A = A} e)
  unfolding fail
  Stays-fail e = record { at = λ w q. q }

  pub Stays-lift : (r : Result A) → Stays Q (lift r)
  unfolding lift
  Stays-lift r = record { at = λ w q. q }

  pub Stays-pure : (a : A) → Stays Q (pure a)
  unfolding pure
  Stays-pure a = record { at = λ w q. q }

module _ {Q : Db → Type 0} where
  pub Stays-fail_if : (b : Bool) (e : Error) → Stays Q (fail_if b e)
  unfolding fail_if
  Stays-fail_if b e = record { at = λ w q. q }

  pub Stays-now_utc : (env : Env) → Stays Q (now_utc env)
  unfolding now_utc
  Stays-now_utc env = record { at = λ w q. q }

module _ {Q : Db → Type 0} {A B : Type 0} where
  pub Stays-bind :
      (m : M A) (f : A → M B) → Stays Q m → ((a : A) → Stays Q (f a)) → Stays Q (m >>= f)
  unfolding ◌>>=◌
  Stays-bind m f km kf = record { at = λ w q. let (r, w') = m w in go r w' (km.at w q) }
    where
      go : (r : Result A) (w : World) → Q w.committed → Q (continue r f w).1.committed
      go (ok a) w q = (kf a).at w q
      go (err e) w q = q

  pub Reverts-bind :
      (m : M A) (f : A → M B) → Stays Q m → ((a : A) → Reverts Q (f a)) → Reverts Q (m >>= f)
  unfolding ◌>>=◌
  Reverts-bind m f km kf = record { at = λ w x e q. go (m w).0 (m w).1 x e (km.at w q) }
    where
      go :
          (r : Result A) (w : World) (x : Error)
          → (continue r f w).0 ≡ err x
          → Q w.committed
          → Q (continue r f w).1.committed
      go (ok a) w x e q = (kf a).at w x e q
      go (err y) w x e q = q

  -- An answer that is dropped.
  pub Reverts-then_pure : (m : M A) (b : B) → Reverts Q m → Reverts Q (m >>= λ _. pure b)
  unfolding ◌>>=◌
  Reverts-then_pure m b k = record { at = λ w x e q. go (m w).0 (m w).1 x e (λ y f. k.at w y f q) }
    where
      go :
          (r : Result A) (w : World) (x : Error)
          → (continue r (λ _. pure b) w).0 ≡ err x
          → ((y : Error) → r ≡ err y → Q w.committed)
          → Q (continue r (λ _. pure b) w).1.committed
      go (ok a) w x e q = cc e
      go (err y) w x e q = q y refl

pub ruleset reverts_rules = (
  Reverts-bind, Reverts-with_tx, Stays-bind, Stays-on_pool, Stays-on_querier, Stays-fail,
  Stays-lift, Stays-pure, Stays-fail_if, Stays-now_utc,
)
