-- ===== src/Store/Sql.antt =====
-- Running a statement, on the pool or on the transaction of the context, and WithTx of
-- internal/infrastructure/postgres/tx.go.
use mathlib.Core.Option
use airbar_finance.Prelude.{ℕ, suc, true, false, ◌||◌, [], Option, none, some, if◌then◌else◌}
use airbar_finance.Prelude.Text.{Text}
use airbar_finance.Domain.Errors.{DatabaseError, failure, database}
use airbar_finance.Store.World.{Db, Env, World, Result, ok, err, M}

-- What a statement does to the tables that it sees: a result and the new tables, or the violated
-- constraint.
pub data Outcome (A : Type 0) : Type 0 where
  done : A → Db → Outcome A
  violates : DatabaseError → Outcome A

abbrev pub Statement : Type 0 → Type 0
Statement A = Db → Outcome A

-- The tables after a statement; one that fails changes nothing.
abbrev pub after : {A : Type 0} → Outcome A → Db → Db
after (done a d) old = d
after (violates e) old = old

abbrev pub advance : World → World
advance w = record w { tick = suc w.tick }

abbrev pub rollback : World → World
rollback w = record w { tx = none; broken = false }

module _ (env : Env) where
  -- uuid.NewString(), and the time, before the next call.
  unfoldable pub new_uuid : M Text
  new_uuid w = (ok (env.uuid w.tick), w)

  unfoldable pub now_utc : M ℕ
  now_utc w = (ok (env.clock w.tick), w)

module _ {A : Type 0} where
  -- A statement on the pool commits at once, and an open transaction sees its effect.
  abbrev pub commit_pool : Outcome A → Statement A → World → Result A × World
  commit_pool (done a d) stmt w = (
    ok a,
    record w { committed = d; tx = Option.map (λ v. after (stmt v) v) w.tx; tick = suc w.tick },
  )
  commit_pool (violates e) stmt w = (err (database e), advance w)

  unfoldable pub on_pool : Env → Statement A → M A
  on_pool env stmt w =
      if env.fails w.tick
      then (err (database failure), advance w)
      else commit_pool (stmt w.committed) stmt w

  -- A statement of the transaction; its failure breaks the transaction.
  abbrev pub settle : Outcome A → World → Result A × World
  settle (done a v) w = (ok a, record w { tx = some v; tick = suc w.tick })
  settle (violates e) w = (err (database e), record w { broken = true; tick = suc w.tick })

  unfoldable pub on_view : Env → Statement A → Db → M A
  on_view env stmt v w =
      if env.fails w.tick || w.broken
      then (err (database failure), record w { broken = true; tick = suc w.tick })
      else settle (stmt v) w

  -- `querier(ctx)`: the transaction of the context if there is one, else the pool.
  unfoldable pub on_connection : Env → Option Db → Statement A → M A
  unfolding on_pool on_view
  on_connection env none stmt w = on_pool env stmt w
  on_connection env (some v) stmt w = on_view env stmt v w

  unfoldable pub on_querier : Env → Statement A → M A
  unfolding on_connection
  on_querier env stmt w = on_connection env w.tx stmt w

  abbrev pub commit : Env → Option Db → A → World → Result A × World
  commit env none a w = (err (database failure), advance (rollback w))
  commit env (some v) a w =
      if env.fails w.tick || w.broken
      then (err (database failure), advance (rollback w))
      else (ok a, record w { committed = v; tx = none; broken = false; tick = suc w.tick })

  abbrev pub finish : Env → Result A → World → Result A × World
  finish env (err e) w = (err e, rollback w)
  finish env (ok a) w = commit env w.tx a w

  -- WithTx is not nested by the program: FundEscrow looks for an open transaction first. A commit
  -- that returns an error has no effect here; that it had one and its answer was lost is not
  -- modelled.
  unfoldable pub with_tx : Env → M A → M A
  with_tx env fn w =
      if env.fails w.tick
      then (err (database failure), advance w)
      else let (r, w') =
          fn (record w { tx = some w.committed; broken = false; tick = suc w.tick }) in
        finish env r w'

-- The state that a request starts in.
abbrev pub idle : Db → World
idle d = record { committed = d; tx = none; broken = false; tick = 0; cache = [] }
