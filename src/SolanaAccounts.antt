-- ===== src/SolanaAccounts.antt =====
-- app/services/solana_collector.py: `_parse_token_accounts` and `_result_value_int`. Text is Latin-1
-- where digits are tested.
pub mod Sums
use py_wallet_snapshot_servi.Prelude.{
  ℕ, Bool, true, false, not, ◌&&◌, ◌||◌, all, find?, Option, none, some, List, [], ◌∷◌, ◌++◌, ◌==◌,
  leb, if◌then◌else◌, Text, codes, text_eq, is_empty, read_int, ℤ, pos, negsuc, ◌+ℤ◌, Dict, lookup,
}
use mathlib.Core.List.{reverse}
use py_wallet_snapshot_servi.Enums.{ErrorType}
use py_wallet_snapshot_servi.Json.{Json, Items, Fields, get}
use py_wallet_snapshot_servi.Rpc.{Call, rpc_failure, pure, reject, crash, ◌>>=◌}

pub record SplTokenConfig : Type 0 where
  pub symbol : Text
  pub mint : Text
  pub decimals : ℤ

-- `result.get("value")` as a list.
abbrev pub list_of : Option Json → Option Items
list_of (some (Json.array items)) = some items
list_of _ = none

-- `account[key]`, none where it raises KeyError or TypeError.
abbrev then_get : Text → Option Json → Option Json
then_get key none = none
then_get key (some value) = get key value

-- The mint and the token amount of an account, none where it is malformed.
abbrev both : Option Json → Option Json → Option (Json × Json)
both (some mint) (some amount) = some (mint, amount)
both _ _ = none

abbrev pub account_info : Json → Option (Json × Json)
account_info account =
    let info =
      then_get (codes "info")
        (then_get (codes "parsed") (then_get (codes "data") (get (codes "account") account))) in
    both (then_get (codes "mint") info) (then_get (codes "tokenAmount") info)

-- `str.isdigit`: with the superscripts two, three and one.
abbrev is_digit : ℕ → Bool
is_digit c = (leb b'0' c && leb c b'9') || c == 178 || c == 179 || c == 185

abbrev pub is_digits : Text → Bool
is_digits s = not (is_empty s) && all is_digit s

abbrev same_int : ℤ → ℤ → Bool
same_int (pos a) (pos b) = a == b
same_int (negsuc a) (negsuc b) = a == b
same_int _ _ = false

abbrev pub text_of : Option Json → Option Text
text_of (some (Json.string s)) = some s
text_of _ = none

abbrev pub int_of : Option Json → Option ℤ
int_of (some (Json.int n)) = some n
int_of _ = none

-- The digits of a valid token amount.
abbrev pub valid_digits : SplTokenConfig → Option Text → Option ℤ → Option Text
valid_digits token (some raw_amount) (some decimals) =
    if is_digits raw_amount && same_int decimals token.decimals then some raw_amount else none
valid_digits token _ _ = none

abbrev pub raw_amount_of : SplTokenConfig → Option Json → Option Json → Option Text
raw_amount_of token raw_amount decimals = valid_digits token (text_of raw_amount) (int_of decimals)

-- The amounts by mint.
abbrev pub Amounts : Type 0
Amounts = Dict Text ℤ

abbrev pub or_zero : Option ℤ → ℤ
or_zero none = pos 0
or_zero (some n) = n

abbrev pub amount_at : Text → Amounts → ℤ
amount_at mint amounts = or_zero (lookup text_eq mint amounts)

module _ {S : Type 0} where
  abbrev malformed : {A : Type 0} → Call S A
  malformed =
      reject
        (rpc_failure ErrorType.rpc_error (codes "Solana RPC returned a malformed token account"))

  -- `amounts[mint] += int(raw_amount)`
  abbrev pub add_amount : Text → Option ℤ → Amounts → Call S Amounts
  add_amount mint none amounts = crash (codes "ValueError")
  add_amount mint (some n) amounts = pure ((mint, amount_at mint amounts +ℤ n) ∷ amounts)

  abbrev pub add_valid : SplTokenConfig → Option Text → Amounts → Call S Amounts
  add_valid token none amounts = reject (
      rpc_failure ErrorType.rpc_error
        (codes "Solana RPC returned an invalid " ++ token.symbol ++ codes " token amount"))
  add_valid token (some raw_amount) amounts = add_amount token.mint (read_int raw_amount) amounts

  abbrev pub add_token : Option SplTokenConfig → Json → Amounts → Call S Amounts
  add_token none token_amount amounts = pure amounts
  add_token (some token) token_amount amounts =
      add_valid token
        (raw_amount_of token (get (codes "amount") token_amount)
          (get (codes "decimals") token_amount))
        amounts

  -- One account: the mint of a tracked token is text, and a list or dictionary is no key.
  abbrev pub add_account : List SplTokenConfig → Option (Json × Json) → Amounts → Call S Amounts
  add_account tokens none amounts = malformed
  add_account tokens (some (Json.string mint, token_amount)) amounts =
      add_token (find? (λ (t : SplTokenConfig). text_eq mint t.mint) (reverse tokens)) token_amount
        amounts
  add_account tokens (some (Json.array _, token_amount)) amounts = crash (codes "TypeError")
  add_account tokens (some (Json.object _, token_amount)) amounts = crash (codes "TypeError")
  add_account tokens (some (_, token_amount)) amounts = pure amounts

  unfoldable pub add_accounts : List SplTokenConfig → Items → Amounts → Call S Amounts
  unfolding lookup read_int
  add_accounts tokens Items.nil amounts = pure amounts
  add_accounts tokens (Items.item account accounts) amounts = do
    amounts ← add_account tokens (account_info account) amounts
    add_accounts tokens accounts amounts

  abbrev pub accounts_of : List SplTokenConfig → Option Items → Call S Amounts
  accounts_of tokens none = reject (
      rpc_failure ErrorType.rpc_error
        (codes "RPC response for getTokenAccountsByOwner has no account list"))
  accounts_of tokens (some accounts) = add_accounts tokens accounts []

  -- `_parse_token_accounts`; a mint without an entry has the amount 0.
  unfoldable pub parse_token_accounts : List SplTokenConfig → Json → Call S Amounts
  unfolding add_accounts
  parse_token_accounts tokens result = accounts_of tokens (list_of (get (codes "value") result))

  abbrev int_value : Text → Option Json → Call S ℕ
  int_value method (some (Json.int (pos n))) = pure n
  int_value method _ = reject (
      rpc_failure ErrorType.rpc_error
        (codes "RPC response for " ++ method ++ codes " has no non-negative integer value"))

  abbrev pub result_value_int : Json → Text → Call S ℕ
  result_value_int result method = int_value method (get (codes "value") result)
