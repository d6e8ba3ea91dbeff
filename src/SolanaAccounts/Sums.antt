-- ===== src/SolanaAccounts/Sums.antt =====
-- The amounts that `_parse_token_accounts` of app/services/solana_collector.py adds up.
use py_wallet_snapshot_servi.Prelude.{
  Bool, true, false, ◌≡◌, refl, sym, ap, subst, ◌∙◌, Option, none, some, find?, is_some, List, [],
  ◌∷◌, if◌then◌else◌, arith, Text, codes, text_eq, text_eq_sound, Bool-cases, ◌⊎◌, inl, inr,
  read_int, ℤ, pos, ◌+ℤ◌, lookup,
}
use mathlib.Core.List.{reverse}
use mathlib.Core.Bool.{false≢true}
use py_wallet_snapshot_servi.Json.{Json, Items, get}
use py_wallet_snapshot_servi.Rpc.Returned.{Returned, pure-Returned, continue_attempt-Returned}
use py_wallet_snapshot_servi.SolanaAccounts.{
  SplTokenConfig, Amounts, amount_at, account_info, valid_digits, raw_amount_of, text_of, int_of,
  add_amount, add_valid, add_token, or_zero, add_account, add_accounts, parse_token_accounts,
}

-- The tokens' own mint: the last of the tokens that have it.
abbrev pub token_of : Text → List SplTokenConfig → Option SplTokenConfig
token_of mint tokens = find? (λ (t : SplTokenConfig). text_eq mint t.mint) (reverse tokens)

abbrev number_in : Option Text → Option ℤ
number_in (some digits) = read_int digits
number_in none = none

-- The number that an account has of a mint, where it is an account of this mint.
abbrev pub number_of : Text → Option (Json × Json) → Option ℤ
number_of mint (some (Json.string m, token_amount)) =
    if text_eq mint m then number_in (text_of (get (codes "amount") token_amount)) else none
number_of mint _ = none

abbrev pub plus : ℤ → Option ℤ → ℤ
plus z none = z
plus z (some n) = z +ℤ n

-- The sum over the accounts of one mint.
unfoldable pub sum_of : Text → ℤ → Items → ℤ
sum_of mint z Items.nil = z
sum_of mint z (Items.item account accounts) =
    sum_of mint (plus z (number_of mint (account_info account))) accounts

-- What one account adds to the amount of a mint.
abbrev Adds : Text → Option (Json × Json) → Amounts → Amounts → Type 0
Adds mint info before after =
    amount_at mint after ≡ plus (amount_at mint before) (number_of mint info)

find?-passes : {A : Type 0} (p : A → Bool) (xs : List A) (x : A) → find? p xs ≡ some x → p x ≡ true
find?-passes p [] x h = absurd (ground arith)
find?-passes p (y ∷ ys) x h = split (p y) refl h (find?-passes p ys x)
  where
    split :
        (b : Bool)
        → p y ≡ b
        → (if b then some y else find? p ys) ≡ some x
        → (find? p ys ≡ some x → p x ≡ true)
        → p x ≡ true
    split true e h later = let same : y ≡ x = ground arith in ap p (sym same) ∙ e
    split false e h later = later h

valid_digits-number_in :
    (token : SplTokenConfig) (digits : Option Text) (decimals : Option ℤ) (raw : Text)
    → valid_digits token digits decimals ≡ some raw
    → number_in digits ≡ read_int raw
valid_digits-number_in token none decimals raw h = absurd (ground arith)
valid_digits-number_in token (some s) none raw h = absurd (ground arith)
valid_digits-number_in token (some s) (some n) raw h =
    let same : s ≡ raw = ground arith in ap read_int same

-- An amount after another is stored.
stored :
    (mint m : Text) (sum : ℤ) (amounts : Amounts)
    → amount_at mint ((m, sum) ∷ amounts) ≡ (if text_eq mint m then sum else amount_at mint amounts)
unfolding lookup
stored mint m sum amounts = cases (text_eq mint m)
  where
    cases :
        (b : Bool)
        → or_zero (if b then some sum else lookup text_eq mint amounts)
          ≡ (if b then sum else amount_at mint amounts)
    cases true = refl
    cases false = refl

module _ (tokens : List SplTokenConfig) (mint : Text)
    (tracked : is_some (token_of mint tokens) ≡ true) where
  untracked : (m : Text) → token_of m tokens ≡ none → text_eq mint m ≡ false
  untracked m h = cases (Bool-cases (text_eq mint m))
    where
      cases : (text_eq mint m ≡ true) ⊎ (text_eq mint m ≡ false) → text_eq mint m ≡ false
      cases (inr f) = f
      cases (inl t) = absurd (
          false≢true (
            ap is_some (sym h)
            ∙ ap (λ x. is_some (token_of x tokens)) (sym (text_eq_sound mint m t))
            ∙ tracked))

module _ {S : Type 0} where
  add_amount-Returned :
      (mint m : Text) (token_amount : Json) (amounts : Amounts) (token : SplTokenConfig)
      (n : Option ℤ) (s : S)
      → m ≡ token.mint
      → number_in (text_of (get (codes "amount") token_amount)) ≡ n
      → Returned
          (Adds mint (some (Json.string m, token_amount)) amounts)
          (add_amount token.mint n amounts s)
  unfolding Returned
  add_amount-Returned mint m token_amount amounts token none s e h = tt
  add_amount-Returned mint m token_amount amounts token (some n) s e h =
      rw (e, h)
        (stored mint token.mint (amount_at token.mint amounts +ℤ n) amounts
          ∙ same (text_eq mint token.mint) refl)
    where
      same :
          (b : Bool)
          → text_eq mint token.mint ≡ b
          → (if b then amount_at token.mint amounts +ℤ n else amount_at mint amounts)
            ≡ plus (amount_at mint amounts) (if b then some n else none)
      same true t = ap (λ x. amount_at x amounts +ℤ n) (sym (text_eq_sound mint token.mint t))
      same false t = refl

  add_valid-Returned :
      (mint m : Text) (token_amount : Json) (amounts : Amounts) (token : SplTokenConfig)
      (raw : Option Text) (s : S)
      → m ≡ token.mint
      → ((t : Text)
          → raw ≡ some t
          → number_in (text_of (get (codes "amount") token_amount)) ≡ read_int t)
      → Returned
          (Adds mint (some (Json.string m, token_amount)) amounts)
          (add_valid token raw amounts s)
  unfolding Returned
  add_valid-Returned mint m token_amount amounts token none s e h = tt
  add_valid-Returned mint m token_amount amounts token (some t) s e h =
      add_amount-Returned mint m token_amount amounts token (read_int t) s e (h t refl)

  add_account-Returned :
      (tokens : List SplTokenConfig) (mint : Text)
      → is_some (token_of mint tokens) ≡ true
      → (info : Option (Json × Json)) (amounts : Amounts) (s : S)
      → Returned (Adds mint info amounts) (add_account tokens info amounts s)
  unfolding Returned
  add_account-Returned tokens mint tracked none amounts s = tt
  add_account-Returned tokens mint tracked (some (Json.string m, token_amount)) amounts s =
      cases (token_of m tokens) refl
    where
      cases :
          (o : Option SplTokenConfig)
          → token_of m tokens ≡ o
          → Returned
              (Adds mint (some (Json.string m, token_amount)) amounts)
              (add_token o token_amount amounts s)
      cases none e = rw (untracked tokens mint tracked m e) refl
      cases (some token) e =
          add_valid-Returned mint m token_amount amounts token
            (raw_amount_of token (get (codes "amount") token_amount)
              (get (codes "decimals") token_amount))
            s
            (text_eq_sound m token.mint
              (find?-passes (λ (t : SplTokenConfig). text_eq m t.mint) (reverse tokens) token e))
            (valid_digits-number_in token (text_of (get (codes "amount") token_amount))
              (int_of (get (codes "decimals") token_amount)))
  add_account-Returned tokens mint tracked (some (Json.array _, token_amount)) amounts s = tt
  add_account-Returned tokens mint tracked (some (Json.object _, token_amount)) amounts s = tt
  add_account-Returned tokens mint tracked (some (Json.null, token_amount)) amounts s = refl
  add_account-Returned tokens mint tracked (some (Json.boolean _, token_amount)) amounts s = refl
  add_account-Returned tokens mint tracked (some (Json.int _, token_amount)) amounts s = refl
  add_account-Returned tokens mint tracked (some (Json.float _, token_amount)) amounts s = refl

  add_accounts-Returned :
      (tokens : List SplTokenConfig) (mint : Text)
      → is_some (token_of mint tokens) ≡ true
      → (accounts : Items) (amounts : Amounts) (s : S)
      → Returned
          (λ after. amount_at mint after ≡ sum_of mint (amount_at mint amounts) accounts)
          (add_accounts tokens accounts amounts s)
  unfolding add_accounts sum_of
  add_accounts-Returned tokens mint tracked Items.nil amounts s = pure-Returned _ amounts s refl
  add_accounts-Returned tokens mint tracked (Items.item account accounts) amounts s =
      continue_attempt-Returned (add_accounts tokens accounts)
        (Adds mint (account_info account) amounts)
        (λ after.
          amount_at mint after ≡ sum_of mint (amount_at mint amounts) (Items.item account accounts))
        (add_account tokens (account_info account) amounts s)
        (add_account-Returned tokens mint tracked (account_info account) amounts s)
        λ between s' e.
          subst
            (λ z.
              Returned (λ after. amount_at mint after ≡ sum_of mint z accounts)
                (add_accounts tokens accounts between s'))
            e (add_accounts-Returned tokens mint tracked accounts between s')

  -- Where the token accounts of a response are read without an error, the amount of each tracked mint is
  -- the sum of the amounts of the accounts of this mint, and no other account counts.
  pub parse_token_accounts-sum_of :
      (tokens : List SplTokenConfig) (mint : Text)
      → is_some (token_of mint tokens) ≡ true
      → (accounts : Items) (result : Json) (s : S)
      → get (codes "value") result ≡ some (Json.array accounts)
      → Returned
          (λ amounts. amount_at mint amounts ≡ sum_of mint (pos 0) accounts)
          (parse_token_accounts tokens result s)
  unfolding parse_token_accounts lookup
  parse_token_accounts-sum_of tokens mint tracked accounts result s h =
      rw h (add_accounts-Returned tokens mint tracked accounts [] s)
