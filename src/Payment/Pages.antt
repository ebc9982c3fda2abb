-- ===== src/Payment/Pages.antt =====
-- The pages of ListProviderEvents.
use airbar_finance.Prelude.{
  ℕ, zero, suc, ◌≤◌, ◌≡◌, refl, ap, false, List, [], ◌∷◌, length, take, inl, inr, arith, Bool-cases,
}
use airbar_finance.Prelude.Int.{ℤ, pos, negsuc, pos_part, ltb_ℤ}
use airbar_finance.Domain.Provider.{Event}
use airbar_finance.Store.World.{Db, Env, World}
use airbar_finance.Store.Yields.{Satisfies, Finds}
use airbar_finance.Store.Returns.{
  Returns, Returns-pure, Returns-bind, Returns-then, Returns-on_querier,
}
use airbar_finance.Payment.Events.{
  ListFilter, bounded, without_payloads, at_offset, select_events, list_events,
  list_provider_events,
}

length-take : {A : Type 0} (n : ℕ) (xs : List A) → length (take n xs) ≤ n
length-take zero xs = omega arith
length-take (suc n) [] = omega arith
length-take (suc n) (x ∷ xs) = omega (arith, length-take n xs)

length-without_payloads : (events : List Event) → length (without_payloads events) ≡ length events
unfolding without_payloads
length-without_payloads [] = refl
length-without_payloads (event ∷ events) = ap suc (length-without_payloads events)

-- A limit between 1 and 100.
bounded_limit : (filter : ListFilter) → pos_part (bounded filter).limit ≤ 100
unfolding bounded
bounded_limit filter = elim (Bool-cases (ltb_ℤ filter.limit (pos 1))) [
  | inl small ↦ rw small (omega arith)
  | inr e ↦ elim (Bool-cases (ltb_ℤ (pos 100) filter.limit)) [
    | inl large ↦ rw (e, large) (omega arith)
    | inr fits ↦ rw (e, fits) (at_most filter.limit fits)
  ]
]
  where
    at_most : (limit : ℤ) → ltb_ℤ (pos 100) limit ≡ false → pos_part limit ≤ 100
    at_most (pos n) h = ground arith
    at_most (negsuc n) h = ground arith

page-Finds :
    (offset : ℤ) (filter : ListFilter) (d : Db)
    → Finds (λ events. length events ≤ pos_part filter.limit) (at_offset offset filter d)
page-Finds (pos n) filter d = rw (length-without_payloads _) (length-take (pos_part filter.limit) _)
page-Finds (negsuc n) filter d = tt

page-Returns :
    (env : Env) (filter : ListFilter)
    → pos_part (bounded filter).limit ≤ 100
    → Returns (λ page. length page.0 ≤ 100) (list_events env filter)
unfolding list_events select_events
page-Returns env filter small = Returns-bind _ _ λ total.
    Returns-then _ _ (Returns-on_querier env _ (page-Finds _ (bounded filter)))
      (λ events short. Returns-pure _ (omega (arith, small, short)))

-- A page of provider events that is returned has at most 100 events, whatever page and limit are
-- asked for.
pub page_at_most_100 :
    (env : Env) (filter : ListFilter) (w : World)
    → Satisfies (λ page. length page.0 ≤ 100) (list_provider_events env filter w).0
unfolding list_provider_events
page_at_most_100 env filter w =
    (page-Returns env (bounded filter) (bounded_limit (bounded filter))).at w
