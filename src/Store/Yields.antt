-- ===== src/Store/Yields.antt =====
-- What is known of the value that an action returns, where a property of the tables holds.
use airbar_finance.Prelude.{◌≡◌, ◌||◌, Option, none, some, inl, inr, Bool-cases, arith, false}
use airbar_finance.Store.World.{Db, Env, World, Result, ok, err, M, ◌>>=◌, pure, lift, continue}
use airbar_finance.Store.Sql.{
  Outcome, done, violates, Statement, on_pool, on_view, on_connection, on_querier, commit_pool,
  settle,
}
use airbar_finance.Store.Keeps.{Holds, HoldsOfView, Keeps}

abbrev pub Satisfies : {A : Type 0} → (A → Type 0) → Result A → Type 0
Satisfies R (ok a) = R a
Satisfies R (err e) = Unit

-- A value that `m` returns satisfies `R`.
pub record Yields {A : Type 0} (P : Db → Type 0) (R : A → Type 0) (m : M A) : Type 0 where
  pub at : (w : World) → Holds P w → Satisfies R (m w).0

-- So does the value that a statement finds in the tables.
abbrev pub Finds : {A : Type 0} → (A → Type 0) → Outcome A → Type 0
Finds R (done a d) = R a
Finds R (violates e) = Unit

module _ (P : Db → Type 0) {A : Type 0} (R : A → Type 0) where
  commit_pool-Satisfies :
      (o : Outcome A) (stmt : Statement A) (w : World)
      → Finds R o
      → Satisfies R (commit_pool o stmt w).0
  commit_pool-Satisfies (done a d) stmt w f = f
  commit_pool-Satisfies (violates e) stmt w f = tt

  settle-Satisfies : (o : Outcome A) (w : World) → Finds R o → Satisfies R (settle o w).0
  settle-Satisfies (done a d) w f = f
  settle-Satisfies (violates e) w f = tt

  on_connection-Satisfies :
      (env : Env) (t : Option Db) (stmt : Statement A) (w : World)
      → ((d : Db) → P d → Finds R (stmt d))
      → P w.committed
      → HoldsOfView P t w.broken
      → Satisfies R (on_connection env t stmt w).0
  unfolding on_connection on_pool on_view
  on_connection-Satisfies env none stmt w k c h = elim (Bool-cases (env.fails w.tick)) [
    | inl e ↦ rw e tt
    | inr e ↦ rw e (commit_pool-Satisfies (stmt w.committed) stmt w (k _ c))
  ]
  on_connection-Satisfies env (some v) stmt w k c h =
      elim (Bool-cases (env.fails w.tick || w.broken)) [
        | inl e ↦ rw e tt
        | inr e ↦
            let whole : w.broken ≡ false = ground arith in
            rw e (settle-Satisfies (stmt v) w (k v (rw whole at h)))
      ]

module _ {P : Db → Type 0} {A : Type 0} {R : A → Type 0} where
  pub Yields-pure : (a : A) → R a → Yields P R (pure a)
  unfolding pure
  Yields-pure a r = record { at = λ w h. r }

  pub Yields-lift : (r : Result A) → Satisfies R r → Yields P R (lift r)
  unfolding lift
  Yields-lift r k = record { at = λ w h. k }

  pub Yields-on_querier :
      (env : Env) (stmt : Statement A)
      → ((d : Db) → P d → Finds R (stmt d))
      → Yields P R (on_querier env stmt)
  unfolding on_querier
  Yields-on_querier env stmt k = record {
    at = λ w h. on_connection-Satisfies P R env w.tx stmt w k h.of_committed h.of_view;
  }

module _ {P : Db → Type 0} {A B : Type 0} {R : A → Type 0} where
  -- The rest may use what is known of the value.
  pub Yields-bind :
      {S : B → Type 0} (m : M A) (f : A → M B)
      → Keeps P m
      → Yields P R m
      → ((a : A) → R a → Yields P S (f a))
      → Yields P S (m >>= f)
  unfolding ◌>>=◌
  Yields-bind {S} m f km ym kf = record { at = λ w h. go (m w).0 (m w).1 (ym.at w h) (km.at w h) }
    where
      go : (r : Result A) (w : World) → Satisfies R r → Holds P w → Satisfies S (continue r f w).0
      go (ok a) w r h = (kf a r).at w h
      go (err e) w r h = tt

  pub Keeps-bind-Yields :
      (m : M A) (f : A → M B)
      → Keeps P m
      → Yields P R m
      → ((a : A) → R a → Keeps P (f a))
      → Keeps P (m >>= f)
  unfolding ◌>>=◌
  Keeps-bind-Yields m f km ym kf = record { at = λ w h. go (m w).0 (m w).1 (ym.at w h) (km.at w h) }
    where
      go : (r : Result A) (w : World) → Satisfies R r → Holds P w → Holds P (continue r f w).1
      go (ok a) w r h = (kf a r).at w h
      go (err e) w r h = h

module _ {P : Db → Type 0} {A B : Type 0} where
  pub Yields-after :
      {S : B → Type 0} (m : M A) (f : A → M B)
      → Keeps P m
      → ((a : A) → Yields P S (f a))
      → Yields P S (m >>= f)
  Yields-after m f km kf =
      Yields-bind {R = λ a. Unit} m f km (record { at = λ w h. known (m w).0 }) (λ a u. kf a)
    where
      known : (r : Result A) → Satisfies (λ a. Unit) r
      known (ok a) = tt
      known (err e) = tt
