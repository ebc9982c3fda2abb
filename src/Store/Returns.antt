-- ===== src/Store/Returns.antt =====
-- What is known of the value that an action returns, whatever the tables.
use airbar_finance.Prelude.{Bool, true, false, ◌||◌, Option, none, some, inl, inr, Bool-cases}
use airbar_finance.Domain.Errors.{Error}
use airbar_finance.Store.World.{Db, Env, World, Result, ok, err, M, ◌>>=◌, pure, fail, continue}
use airbar_finance.Store.Sql.{Statement, on_querier, with_tx, commit, finish}
use airbar_finance.Store.Keeps.{HoldsOfView}
use airbar_finance.Store.Yields.{Satisfies, Finds, Yields-on_querier}

-- A value that `m` returns satisfies `R`.
pub record Returns {A : Type 0} (R : A → Type 0) (m : M A) : Type 0 where
  pub at : (w : World) → Satisfies R (m w).0

module _ {A : Type 0} {R : A → Type 0} where
  pub Returns-pure : (a : A) → R a → Returns R (pure a)
  unfolding pure
  Returns-pure a r = record { at = λ w. r }

  pub Returns-fail : (e : Error) → Returns R (fail {A = A} e)
  unfolding fail
  Returns-fail e = record { at = λ w. tt }

module _ {A : Type 0} (R : A → Type 0) where
  commit-Satisfies :
      (env : Env) (t : Option Db) (a : A) (w : World) → R a → Satisfies R (commit env t a w).0
  commit-Satisfies env none a w r = tt
  commit-Satisfies env (some v) a w r = elim (Bool-cases (env.fails w.tick || w.broken)) [
    | inl e ↦ rw e tt
    | inr e ↦ rw e r
  ]

  finish-Satisfies :
      (env : Env) (r : Result A) (w : World) → Satisfies R r → Satisfies R (finish env r w).0
  finish-Satisfies env (ok a) w h = commit-Satisfies env w.tx a w h
  finish-Satisfies env (err e) w h = tt

module _ {A : Type 0} {R : A → Type 0} where
  pub Returns-with_tx : (env : Env) (m : M A) → Returns R m → Returns R (with_tx env m)
  unfolding with_tx
  Returns-with_tx env m k = record {
    at = λ w. elim (Bool-cases (env.fails w.tick)) [
      | inl e ↦ rw e tt
      | inr e ↦ rw e (finish-Satisfies R env _ _ (k.at _))
    ];
  }

module _ {A B : Type 0} {R : A → Type 0} where
  pub Returns-bind : (m : M B) (f : B → M A) → ((b : B) → Returns R (f b)) → Returns R (m >>= f)
  unfolding ◌>>=◌
  Returns-bind m f k = record { at = λ w. go (m w).0 (m w).1 }
    where
      go : (r : Result B) (w : World) → Satisfies R (continue r f w).0
      go (ok b) w = (k b).at w
      go (err e) w = tt

  -- The rest may use what is known of the value.
  pub Returns-then :
      {Q : B → Type 0} (m : M B) (f : B → M A)
      → Returns Q m
      → ((b : B) → Q b → Returns R (f b))
      → Returns R (m >>= f)
  unfolding ◌>>=◌
  Returns-then {Q} m f km kf = record { at = λ w. go (m w).0 (m w).1 (km.at w) }
    where
      go : (r : Result B) (w : World) → Satisfies Q r → Satisfies R (continue r f w).0
      go (ok b) w q = (kf b q).at w
      go (err e) w q = tt

module _ {A : Type 0} {R : A → Type 0} where
  pub Returns-on_querier :
      (env : Env) (stmt : Statement A)
      → ((d : Db) → Finds R (stmt d))
      → Returns R (on_querier env stmt)
  Returns-on_querier env stmt k = record {
    at = λ w.
        (Yields-on_querier {P = λ d. Unit} env stmt (λ d h. k d)).at w
          (record { of_committed = tt; of_view = view w.tx w.broken });
  }
    where
      view : (t : Option Db) (b : Bool) → HoldsOfView (λ d. Unit) t b
      view none b = tt
      view (some v) true = tt
      view (some v) false = tt
