-- ===== src/Credit/Repository/Once.antt =====
-- A grant is reversed at most once.
use airbar_finance.Prelude.{
  ℕ, ◌≡◌, refl, false, List, [], ◌∷◌, any, map, arith, inl, inr, Bool-cases,
}
use airbar_finance.Prelude.Text.{Text}
use airbar_finance.Domain.Credit.{Grant}
use airbar_finance.Store.World.{Db}
use airbar_finance.Store.Sql.{done, after}
use airbar_finance.Credit.Repository.{is_active, is_open, set_reversed, update_reversed}

set_reversed_closed :
    (id : Text) (t : ℕ) (why who : Text) (row : Grant)
    → is_open id (set_reversed id t why who row) ≡ false
unfolding set_reversed is_open is_active
set_reversed_closed id t why who row = elim (Bool-cases (is_open id row)) [
  | inl h ↦ rw h (ground arith)
  | inr h ↦ rw h (rw h refl)
]

none_open :
    (id : Text) (t : ℕ) (why who : Text) (rows : List Grant)
    → any (is_open id) (map (set_reversed id t why who) rows) ≡ false
none_open id t why who [] = refl
none_open id t why who (row ∷ rows) =
    rw (set_reversed_closed id t why who row, none_open id t why who rows) refl

-- After an update of MarkReversed, whether it found an active grant or not, a second one for the
-- same id, with whatever time, reason and person, finds none and changes nothing.
pub update_reversed_once :
    (id : Text) (t t' : ℕ) (why who why' who' : Text) (d : Db)
    → update_reversed id t' why' who' (after (update_reversed id t why who d) d)
      ≡ done false (after (update_reversed id t why who d) d)
unfolding update_reversed
update_reversed_once id t t' why who why' who' d = elim (Bool-cases (any (is_open id) d.grants)) [
  | inl known ↦ rw (known, none_open id t why who d.grants) refl
  | inr missing ↦ rw (missing, missing) refl
]
