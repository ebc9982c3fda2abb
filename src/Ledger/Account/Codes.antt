-- ===== src/Ledger/Account/Codes.antt =====
-- The codes of account.go: what the parsers accept, and which codes can coincide.
use Prim.Native.Nat.add
use mathlib.Core.Path.{◌≡⟨◌⟩◌, ◌∎}
use mathlib.Core.List.{append_assoc, append_cancel_right}
use airbar_finance.Prelude.{
  ℕ, zero, suc, ◌+◌, ◌-◌, ◌<◌, ◌≡◌, ◌≢◌, ◌↔◌, refl, sym, ap, ◌∙◌, true, false, [], ◌∷◌, ◌++◌, some,
  arith, length, take, drop, length-append, take-append, drop-append, leb,
}
use airbar_finance.Prelude.Text.{Text, text, same, is_empty, same_refl, same_sound}
use airbar_finance.Ledger.Account.{
  AccountCode, wallet_account_prefix, wallet_account_suffix, promo_credit_account_suffix,
  user_wallet_account, user_promo_credit_account, shipment_escrow_account, parse_user_id,
  parse_user_id_from_wallet_account, parse_user_id_from_promo_credit_account,
}

drop-drop : (a b : ℕ) (xs : Text) → drop a (drop b xs) ≡ drop (b + a) xs
drop-drop a zero xs = rw add.zero
drop-drop zero (suc b) [] = rw add.suc
drop-drop (suc a) (suc b) [] = rw add.suc
drop-drop a (suc b) (x ∷ xs) = rw add.suc (drop-drop a b xs)

take_append_drop : (n : ℕ) (xs : Text) → take n xs ++ drop n xs ≡ xs
take_append_drop zero xs = refl
take_append_drop (suc n) [] = refl
take_append_drop (suc n) (x ∷ xs) = ap (λ r. x ∷ r) (take_append_drop n xs)

length-pos : (u : Text) → is_empty u ≡ false → 0 < length u
length-pos [] h = cc
length-pos (c ∷ u) h = omega arith

module _ (suffix : Text) where
  code_of : Text → AccountCode
  code_of u = wallet_account_prefix ++ (u ++ suffix)

  length-code_of : (u : Text) → length (code_of u) ≡ 5 + length u + length suffix
  unfolding code_of
  length-code_of u = omega (arith, length-append {0} u suffix)

  drop-code_of : (u : Text) → drop (length (code_of u) - length suffix) (code_of u) ≡ suffix
  unfolding code_of
  drop-code_of u = rw at_suffix (drop-append (wallet_account_prefix ++ u) suffix)
    where
      at_suffix : length (code_of u) - length suffix ≡ length (wallet_account_prefix ++ u)
      at_suffix = omega (arith, length-append {0} u suffix)

  take-code_of :
      (u : Text)
      → take
          (length (code_of u) - length suffix - length wallet_account_prefix)
          (drop (length wallet_account_prefix) (code_of u))
        ≡ u
  unfolding code_of
  take-code_of u = rw at_id (take-append u suffix)
    where
      at_id : length (code_of u) - length suffix - length wallet_account_prefix ≡ length u
      at_id = omega (arith, length-append {0} u suffix)

  -- A code made of the prefix, a non-empty id and the suffix is parsed to the id.
  parse_user_id-code_of :
      (u : Text) → is_empty u ≡ false → parse_user_id suffix (code_of u) ≡ some u
  unfolding parse_user_id code_of
  parse_user_id-code_of u h = rw (too_short, drop-code_of u, same_refl suffix, take-code_of u, h)
    where
      too_short : leb (length (code_of u)) (length wallet_account_prefix + length suffix) ≡ false
      too_short = ground (arith, length-append {0} u suffix, length-pos u h)

  accepted_parts :
      (raw u : Text)
      → parse_user_id suffix raw ≡ some u
      → (length wallet_account_prefix + length suffix < length raw)
        × (same (take (length wallet_account_prefix) raw) wallet_account_prefix ≡ true)
        × (same (drop (length raw - length suffix) raw) suffix ≡ true)
        × (take
              (length raw - length suffix - length wallet_account_prefix)
              (drop (length wallet_account_prefix) raw)
            ≡ u)
  unfolding parse_user_id
  accepted_parts raw u h = ground arith

  -- What the parser accepts is such a code.
  parse_user_id_sound : (raw u : Text) → parse_user_id suffix raw ≡ some u → raw ≡ code_of u
  unfolding code_of
  parse_user_id_sound raw u h =
      let (longer, at_prefix, at_suffix, id) = accepted_parts raw u h in
      let k = length raw - length suffix - length wallet_account_prefix in
      raw
      ≡⟨ sym (take_append_drop 5 raw) ⟩ take 5 raw ++ drop 5 raw
      ≡⟨ ap (λ p. p ++ drop 5 raw) (same_sound (take 5 raw) wallet_account_prefix at_prefix) ⟩
        wallet_account_prefix ++ drop 5 raw
      ≡⟨ ap (λ p. wallet_account_prefix ++ p) (sym (take_append_drop k (drop 5 raw))) ⟩
        wallet_account_prefix ++ (take k (drop 5 raw) ++ drop k (drop 5 raw))
      ≡⟨ (rw (id, drop-drop k 5 raw, rest longer, same_sound _ suffix at_suffix)) ⟩ code_of u ∎
    where
      rest :
          length wallet_account_prefix + length suffix < length raw
          → 5 + (length raw - length suffix - length wallet_account_prefix)
            ≡ length raw - length suffix
      rest longer = omega arith

  accepted_not_empty : (raw u : Text) → parse_user_id suffix raw ≡ some u → is_empty u ≡ false
  unfolding parse_user_id
  accepted_not_empty raw u h = ground arith

-- ParseUserIDFromWalletAccount accepts exactly the wallet codes of users with a non-empty id, and
-- returns the id.
pub parse_wallet_account_iff :
    (code : AccountCode) (u : Text)
    → (parse_user_id_from_wallet_account code ≡ some u)
      ↔ (is_empty u ≡ false) × (code ≡ user_wallet_account u)
unfolding parse_user_id_from_wallet_account user_wallet_account code_of
parse_wallet_account_iff code u = (
  λ h. (
    accepted_not_empty wallet_account_suffix code u h,
    parse_user_id_sound wallet_account_suffix code u h,
  ),
  λ (full, e). rw e (parse_user_id-code_of wallet_account_suffix u full),
)

-- ParseUserIDFromPromoCreditAccount accepts exactly the promo credit codes of users with a
-- non-empty id, and returns the id.
pub parse_promo_credit_account_iff :
    (code : AccountCode) (u : Text)
    → (parse_user_id_from_promo_credit_account code ≡ some u)
      ↔ (is_empty u ≡ false) × (code ≡ user_promo_credit_account u)
unfolding parse_user_id_from_promo_credit_account user_promo_credit_account code_of
parse_promo_credit_account_iff code u = (
  λ h. (
    accepted_not_empty promo_credit_account_suffix code u h,
    parse_user_id_sound promo_credit_account_suffix code u h,
  ),
  λ (full, e). rw e (parse_user_id-code_of promo_credit_account_suffix u full),
)

-- Two texts with ends of one length agree in their ends.
same_end : (u v s t : Text) → length s ≡ length t → u ++ s ≡ v ++ t → s ≡ t
same_end u v s t l e =
    sym (drop-append u s) ∙ ap (drop (length u)) e ∙ rw same_start (drop-append v t)
  where
    same_start : length u ≡ length v
    same_start =
        omega
          (arith, l, ap (λ (r : Text). length r) e, length-append {0} u s, length-append {0} v t)

abbrev first : Text → ℕ
first [] = 0
first (c ∷ s) = c

-- No wallet code is a promo credit code, whoever the users are.
pub wallet-ne-promo : (u v : Text) → user_wallet_account u ≢ user_promo_credit_account v
unfolding user_wallet_account user_promo_credit_account
wallet-ne-promo u v e = omega (arith, ap first ends)
  where
    ends : wallet_account_suffix ≡ text "ROMO_CREDIT_LIABILITY"
    ends =
        same_end u (v ++ text ":IRT:P") wallet_account_suffix (text "ROMO_CREDIT_LIABILITY") refl
          (ap (drop 5) e ∙ sym (append_assoc v (text ":IRT:P") (text "ROMO_CREDIT_LIABILITY")))

-- A shipment's escrow code is no user's wallet code and no user's promo credit code.
pub escrow-ne-user :
    (s u : Text)
    → (shipment_escrow_account s ≢ user_wallet_account u)
      × (shipment_escrow_account s ≢ user_promo_credit_account u)
unfolding shipment_escrow_account user_wallet_account user_promo_credit_account
escrow-ne-user s u = (λ e. omega (arith, ap first e), λ e. omega (arith, ap first e))

-- Wallet codes of two users coincide only if the users do.
pub user_wallet_account_injective :
    (u v : Text) → user_wallet_account u ≡ user_wallet_account v → u ≡ v
unfolding user_wallet_account
user_wallet_account_injective u v e = append_cancel_right u v wallet_account_suffix (ap (drop 5) e)

pub user_promo_credit_account_injective :
    (u v : Text) → user_promo_credit_account u ≡ user_promo_credit_account v → u ≡ v
unfolding user_promo_credit_account
user_promo_credit_account_injective u v e =
    append_cancel_right u v promo_credit_account_suffix (ap (drop 5) e)

pub shipment_escrow_account_injective :
    (u v : Text) → shipment_escrow_account u ≡ shipment_escrow_account v → u ≡ v
unfolding shipment_escrow_account
shipment_escrow_account_injective u v e =
    append_cancel_right u v (text ":IRT:ESCROW") (ap (drop 9) e)
