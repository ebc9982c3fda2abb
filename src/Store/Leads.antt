-- ===== src/Store/Leads.antt =====
-- Actions inside an open transaction that take its view through states which are no invariant: from
-- `P` to `Q` if they succeed, and to a broken transaction if they do not. The committed tables stay.
use airbar_finance.Prelude.{
  ◌≡◌, ◌≢◌, refl, ◌∙◌, Bool, true, false, ◌||◌, Option, none, some, inl, inr, arith, Bool-cases,
}
use airbar_finance.Domain.Errors.{Error}
use airbar_finance.Store.World.{
  Db, Env, World, Result, ok, err, M, ◌>>=◌, pure, map_error, remap, continue,
}
use airbar_finance.Store.Sql.{
  Outcome, done, violates, Statement, on_connection, on_querier, settle, new_uuid, now_utc,
}
use airbar_finance.Store.Keeps.{Holds, HoldsOfView}

-- The view of an open transaction satisfies `P`, unless the transaction is broken.
abbrev pub Within : (Db → Type 0) → Option Db → Bool → Type 0
Within P none b = ⊥
Within P (some v) b = b ≡ false → P v

abbrev pub IsBroken : Option Db → Bool → Type 0
IsBroken none b = ⊥
IsBroken (some v) b = b ≡ true

abbrev Ends : {A : Type 0} → (Db → Type 0) → Result A → World → Type 0
Ends Q (ok a) w = Within Q w.tx w.broken
Ends Q (err e) w = IsBroken w.tx w.broken

pub record Leads {A : Type 0} (P Q : Db → Type 0) (m : M A) : Type 0 where
  pub view : (w : World) → Within P w.tx w.broken → Ends Q (m w).0 (m w).1
  pub committed : (w : World) → Within P w.tx w.broken → (m w).1.committed ≡ w.committed

-- What a statement that succeeds establishes.
abbrev pub Establishes : {A : Type 0} → (Db → Type 0) → Outcome A → Type 0
Establishes Q (done a d) = Q d
Establishes Q (violates e) = Unit

module _ {A : Type 0} (P Q : Db → Type 0) where
  remap-Ends : (f : Error → Error) (r : Result A) (w : World) → Ends Q r w → Ends Q (remap f r) w
  remap-Ends f (ok a) w h = h
  remap-Ends f (err e) w h = h

  settle-Ends :
      (o : Outcome A) (v : Db) (w : World)
      → w.tx ≡ some v
      → Establishes Q o
      → Ends Q (settle o w).0 (settle o w).1
  settle-Ends (done a d) v w e h = λ b. h
  settle-Ends (violates x) v w e h = rw e refl

  on_connection-Ends :
      (env : Env) (stmt : Statement A) (t : Option Db) (w : World)
      → w.tx ≡ t
      → ((v : Db) → P v → Establishes Q (stmt v))
      → Within P t w.broken
      → Ends Q (on_connection env t stmt w).0 (on_connection env t stmt w).1
        × ((on_connection env t stmt w).1.committed ≡ w.committed)
  unfolding on_connection
  on_connection-Ends env stmt none w e k h = absurd h
  on_connection-Ends env stmt (some v) w e k h = elim (Bool-cases (env.fails w.tick || w.broken)) [
    | inl failed ↦ rw failed (rw e refl, refl)
    | inr works ↦
        let whole : w.broken ≡ false = ground arith in
        rw works (settle-Ends (stmt v) v w e (k v (h whole)), settle_committed (stmt v) w)
  ]
    where
      settle_committed : (o : Outcome A) (w : World) → (settle o w).1.committed ≡ w.committed
      settle_committed (done a d) w = refl
      settle_committed (violates x) w = refl

module _ {A : Type 0} {P Q : Db → Type 0} where
  pub Leads-map_error : (f : Error → Error) (m : M A) → Leads P Q m → Leads P Q (map_error f m)
  unfolding map_error
  Leads-map_error f m l = record {
    view = λ w h. remap-Ends P Q f (m w).0 (m w).1 (l.view w h);
    committed = l.committed;
  }

  pub Leads-on_querier :
      (env : Env) (stmt : Statement A)
      → ((v : Db) → P v → Establishes Q (stmt v))
      → Leads P Q (on_querier env stmt)
  unfolding on_querier
  Leads-on_querier env stmt k = record {
    view = λ w h. (on_connection-Ends P Q env stmt w.tx w refl k h).0;
    committed = λ w h. (on_connection-Ends P Q env stmt w.tx w refl k h).1;
  }

pub Leads-pure : {A : Type 0} {P : Db → Type 0} (a : A) → Leads P P (pure a)
unfolding pure
Leads-pure a = record { view = λ w h. h; committed = λ w h. refl }

pub Leads-new_uuid : {P : Db → Type 0} (env : Env) → Leads P P (new_uuid env)
unfolding new_uuid
Leads-new_uuid env = record { view = λ w h. h; committed = λ w h. refl }

pub Leads-now_utc : {P : Db → Type 0} (env : Env) → Leads P P (now_utc env)
unfolding now_utc
Leads-now_utc env = record { view = λ w h. h; committed = λ w h. refl }

module _ {A B : Type 0} (P Q : Db → Type 0) where
  Leads-continue :
      (r : Result A) (f : A → M B) (w : World)
      → ((a : A) → Leads P Q (f a))
      → Ends P r w
      → Ends Q (continue r f w).0 (continue r f w).1 × ((continue r f w).1.committed ≡ w.committed)
  Leads-continue (ok a) f w k h = ((k a).view w h, (k a).committed w h)
  Leads-continue (err e) f w k h = (h, refl)

module _ {A B : Type 0} {P R Q : Db → Type 0} where
  pub Leads-bind :
      (m : M A) (f : A → M B) → Leads P R m → ((a : A) → Leads R Q (f a)) → Leads P Q (m >>= f)
  unfolding ◌>>=◌
  Leads-bind m f lm lf = record {
    view = λ w h. (Leads-continue R Q (m w).0 f (m w).1 lf (lm.view w h)).0;
    committed = λ w h. (Leads-continue R Q (m w).0 f (m w).1 lf (lm.view w h)).1 ∙ lm.committed w h;
  }

module _ {P P' : Db → Type 0} where
  Within-mono : ((d : Db) → P d → P' d) → (t : Option Db) (b : Bool) → Within P t b → Within P' t b
  Within-mono f none b h = h
  Within-mono f (some v) b h = λ e. f v (h e)

module _ {A : Type 0} {P P' Q Q' : Db → Type 0} (before : (d : Db) → P d → P' d)
    (after : (d : Db) → Q' d → Q d) where
  Ends-mono : (r : Result A) (w : World) → Ends Q' r w → Ends Q r w
  Ends-mono (ok a) w h = Within-mono after w.tx w.broken h
  Ends-mono (err e) w h = h

  pub Leads-weaken : {m : M A} → Leads P' Q' m → Leads P Q m
  Leads-weaken {m} l = record {
    view = λ w h. Ends-mono (m w).0 (m w).1 (l.view w (Within-mono before w.tx w.broken h));
    committed = λ w h. l.committed w (Within-mono before w.tx w.broken h);
  }

module _ {A : Type 0} {P : Db → Type 0} where
  Leads-Holds : (r : Result A) (w : World) → P w.committed → Ends P r w → Holds P w
  Leads-Holds (ok a) w c h = record { of_committed = c; of_view = of_within w.tx w.broken h }
    where
      of_within : (t : Option Db) (b : Bool) → Within P t b → HoldsOfView P t b
      of_within none b h = tt
      of_within (some v) true h = tt
      of_within (some v) false h = h refl
  Leads-Holds (err e) w c h = record { of_committed = c; of_view = of_broken w.tx w.broken h }
    where
      of_broken : (t : Option Db) (b : Bool) → IsBroken t b → HoldsOfView P t b
      of_broken none b h = tt
      of_broken (some v) true h = tt
      of_broken (some v) false h = cc

  -- An action that leads from `P` back to `P` keeps it wherever a transaction is open.
  pub Leads-keeps :
      (m : M A) → Leads P P m → (w : World) → w.tx ≢ none → Holds P w → Holds P (m w).1
  Leads-keeps m l w open_tx h =
      let within = of_view w.tx w.broken open_tx h.of_view in
      Leads-Holds (m w).0 (m w).1 (rw (l.committed w within) h.of_committed) (l.view w within)
    where
      of_view : (t : Option Db) (b : Bool) → t ≢ none → HoldsOfView P t b → Within P t b
      of_view none b n h = absurd (n refl)
      of_view (some v) b n h = λ e. rw e at h
