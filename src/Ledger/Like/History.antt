-- ===== src/Ledger/Like/History.antt =====
-- The listing of an account against the sums that its balance is computed from.
use airbar_finance.Prelude.{
  ◌≡◌, refl, Bool, true, some, List, [], ◌∷◌, find, any, All, inl, inr, arith, Bool-cases, ◌∙◌, ap,
}
use airbar_finance.Prelude.Int.{ℤ, pos, ◌+ℤ◌, int_laws}
use airbar_finance.Prelude.Text.{same}
use airbar_finance.Domain.Ledger.{Entry, JournalRow}
use airbar_finance.Ledger.Account.{AccountCode}
use airbar_finance.Ledger.Repository.{sum_debit, sum_credit}
use airbar_finance.Ledger.Like.{
  AccountEntry, Joined, join_entries, before, place, sorted, entries_of,
}

abbrev pub debits : List AccountEntry → ℤ
debits [] = pos 0
debits (e ∷ es) = e.debit +ℤ debits es

abbrev pub credits : List AccountEntry → ℤ
credits [] = pos 0
credits (e ∷ es) = e.credit +ℤ credits es

swap : (a b c : ℤ) → b +ℤ (a +ℤ c) ≡ a +ℤ (b +ℤ c)
swap a b c = omega int_laws

place-sums :
    (row : Joined) (rows : List Joined)
    → (debits (entries_of (place row rows)) ≡ row.0.debit +ℤ debits (entries_of rows))
      × (credits (entries_of (place row rows)) ≡ row.0.credit +ℤ credits (entries_of rows))
unfolding place
place-sums row [] = (refl, refl)
place-sums row (other ∷ rows) = elim (Bool-cases (before row other)) [
  | inl e ↦ rw e (refl, refl)
  | inr e ↦ let (d, c) = place-sums row rows in rw e (rw (d, c) (swap _ _ _, swap _ _ _))
]

sorted-sums :
    (rows : List Joined)
    → (debits (entries_of (sorted rows)) ≡ debits (entries_of rows))
      × (credits (entries_of (sorted rows)) ≡ credits (entries_of rows))
unfolding sorted
sorted-sums [] = (refl, refl)
sorted-sums (row ∷ rows) =
    let (d, c) = sorted-sums rows in
    let (pd, pc) = place-sums row (sorted rows) in
    (pd ∙ ap (λ s. row.0.debit +ℤ s) d, pc ∙ ap (λ s. row.0.credit +ℤ s) c)

found : {A : Type 0} (p : A → Bool) (xs : List A) → any p xs ≡ true → (x : A) × (find p xs ≡ some x)
found p [] h = grind arith
found p (x ∷ xs) h = elim (Bool-cases (p x)) [
  | inl e ↦ (x, rw e refl)
  | inr e ↦ let (y, q) = found p xs (rw e at h) in (y, rw e q)
]

abbrev pub HasJournal : List JournalRow → Entry → Type 0
HasJournal journals e = any (λ j. same j.id e.journal_id) journals ≡ true

join-sums :
    (code : AccountCode) (journals : List JournalRow) (entries : List Entry)
    → All (HasJournal journals) entries
    → (debits (entries_of (join_entries code journals entries))
        ≡ sum_debit (λ e. same e.account_code code) entries)
      × (credits (entries_of (join_entries code journals entries))
          ≡ sum_credit (λ e. same e.account_code code) entries)
unfolding join_entries
join-sums code journals [] hs = (refl, refl)
join-sums code journals (e ∷ es) (h, hs) =
    let (d, c) = join-sums code journals es hs in
    let (j, q) = found (λ j. same j.id e.journal_id) journals h in
    elim (Bool-cases (same e.account_code code)) [
      | inl t ↦ rw t (rw q (ap (λ s. e.debit +ℤ s) d, ap (λ s. e.credit +ℤ s) c))
      | inr t ↦ rw t (d, c)
    ]

-- When each entry's journal is in its table, the debits of the listing of an account add up to the
-- debits that the account's balance is computed from, and so do the credits.
pub listing_sums :
    (code : AccountCode) (journals : List JournalRow) (entries : List Entry)
    → All (HasJournal journals) entries
    → (debits (entries_of (sorted (join_entries code journals entries)))
        ≡ sum_debit (λ e. same e.account_code code) entries)
      × (credits (entries_of (sorted (join_entries code journals entries)))
          ≡ sum_credit (λ e. same e.account_code code) entries)
listing_sums code journals entries hs =
    let (d, c) = sorted-sums (join_entries code journals entries) in
    let (jd, jc) = join-sums code journals entries hs in (d ∙ jd, c ∙ jc)
