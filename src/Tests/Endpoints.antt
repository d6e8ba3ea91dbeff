-- ===== src/Tests/Endpoints.antt =====
-- The rotation of endpoints and the two collectors at concrete inputs.
use py_wallet_snapshot_servi.Prelude.{
  ℕ, ◌+◌, ◌*◌, ◌≤◌, ◌≡◌, ◌⊎◌, ◌∷◌, refl, true, none, some, List, [], if◌then◌else◌, arith, Text,
  codes, text_eq, pos, is_some, strip, read_int, ◌+ℤ◌,
}
use py_wallet_snapshot_servi.Enums.{ErrorType, error_type_value}
use py_wallet_snapshot_servi.Json.{Json, Items, Fields, get}
use py_wallet_snapshot_servi.Result.{ok}
use py_wallet_snapshot_servi.ChainConfig.{ChainConfig}
use py_wallet_snapshot_servi.Collection.{ChainCollectionResult}
use py_wallet_snapshot_servi.Prices.{Prices}
use py_wallet_snapshot_servi.Failover.{
  RpcAttemptError, Attempt, returned, rejected, Clocks, Rotation, available, rotate, failed,
}
use py_wallet_snapshot_servi.Failover.Bounds.{
  IsMonotonic, IsBounded, longest, enumerate, rotate-IsBounded, available-enumerate,
}
use py_wallet_snapshot_servi.Failover.Endings.{Ending, rotate-Ending}
use py_wallet_snapshot_servi.Failover.Results.{Answers}
use py_wallet_snapshot_servi.Rpc.{Rpc, json, replied, rpc_failure}
use py_wallet_snapshot_servi.Rpc.Returned.{Returned}
use py_wallet_snapshot_servi.Rpc.Errors.{broke_with, rpc_call-broke_with}
use py_wallet_snapshot_servi.Rpc.Evm
use py_wallet_snapshot_servi.EvmCollector.{State, collect_chain}
use py_wallet_snapshot_servi.EvmCollector.Collected.{IsAnswer, collect_chain-IsAnswer}
use py_wallet_snapshot_servi.SolanaAccounts.{amount_at, parse_token_accounts}
use py_wallet_snapshot_servi.SolanaAccounts.Sums.{sum_of, token_of, parse_token_accounts-sum_of}
use py_wallet_snapshot_servi.SolanaCollector as Solana
use py_wallet_snapshot_servi.SolanaCollector.Collected as SolanaResults
use py_wallet_snapshot_servi.SolanaCollector.Keys.{IsKey, is_valid_address-IsKey}

abbrev clocks : Clocks ℕ
clocks = record { monotonic = λ n. (n + 1, n + 1); perf_counter = λ n. (n + 2, n + 2) }

abbrev same : ℕ → ℕ
same n = n

clocks-IsMonotonic : IsMonotonic clocks same
clocks-IsMonotonic = record {
  reads = λ s. omega arith;
  after = λ s. refl;
  counts = λ s. omega arith;
}

abbrev urls : List Text
urls = codes "https://a" ∷ codes "https://b" ∷ []

abbrev slow : RpcAttemptError
slow = rpc_failure ErrorType.timeout (codes "RPC request timed out")

-- The first endpoint is slow; the other one answers.
abbrev outcome : Text → Attempt ChainCollectionResult
outcome url =
    if text_eq url (codes "https://a")
    then rejected slow
    else returned (failed (codes "base") (codes "none") (codes "none"))

abbrev collect : Text → ℕ → ℕ × Attempt ChainCollectionResult
collect url n = (n + 5, outcome url)

onward : (url : Text) (n : ℕ) → n ≤ (collect url n).0
onward url n = omega arith

abbrev message : ℕ → Text
message n = codes "wait"

abbrev none_blocked : Rotation ℕ
none_blocked = record { blocks = []; inner = 1000 }

rotate-IsBounded_example :
    IsBounded clocks same clocks-IsMonotonic
      (codes "base")
      60
      (rotate clocks (codes "base") 60 (codes "none") message collect urls none_blocked).0
rotate-IsBounded_example =
    rotate-IsBounded clocks same clocks-IsMonotonic (codes "base") 60 collect onward (codes "none")
      message urls none_blocked tt

-- One endpoint is left out for 60 seconds.
abbrev one_blocked : Rotation ℕ
one_blocked = record { blocks = (codes "https://a", 60 * 1000000000) ∷ []; inner = 1000 }

available-enumerate_example :
    (available clocks (codes "base") 60 one_blocked.blocks 0 urls (1000 + longest)).1
    ≡ enumerate 0 urls
available-enumerate_example =
    available-enumerate clocks same clocks-IsMonotonic (codes "base") 60 one_blocked 0 urls
      (1000 + longest) (omega arith, tt) (omega arith)

rotate-Ending_example :
    let (r', result, metrics) =
      rotate clocks (codes "base") 60 (codes "none") message collect urls none_blocked in
    let (s, free) = available clocks (codes "base") 60 [] 0 urls 1000 in
    ((n : ℕ) × (1 ≤ n)
      × (free ≡ [])
      × (r'.blocks ≡ [])
      × (result ≡ ok (failed (codes "base") (error_type_value ErrorType.circuit_open) (message n))))
    ⊎ Ending clocks (codes "base") collect 1000 s none [] r'.blocks free result
rotate-Ending_example =
    rotate-Ending clocks same clocks-IsMonotonic (codes "base") 60 collect onward (codes "none")
      message (codes "https://a") (codes "https://b" ∷ []) none_blocked

-- A price service without prices, and endpoints that answer every call with the same result.
abbrev no_prices : Prices
no_prices = record {
  State = ℕ;
  get_usd_price = λ symbol n. (n + 1, none, none);
  get_token_usd_price = λ platform address n. (n + 1, none, none);
}

abbrev answering : Json → Rpc ℕ
answering payload = record {
  clocks = clocks;
  utc_now = λ n. (n + 1, n);
  post = λ url timeout body n. (
    n + 9,
    replied (record {
      status_code = 200;
      retry_after = none;
      status_error = none;
      body = json payload;
    }),
  );
  show_json = λ _. codes "error";
  parse_date = λ _. none;
}

abbrev one : Json
one = Json.object (Fields.field (codes "result") (Json.string (codes "0x1")) Fields.end)

abbrev config : ChainConfig
config = record {
  name = codes "base";
  native_symbol = codes "ETH";
  expected_chain_id = 1;
  rpc_urls = urls;
  timeout_seconds = 8;
  coingecko_platform = codes "base";
  tokens =
      (record { symbol = codes "USDC"; address = codes "0xA0"; price_symbol = codes "USDC" }) ∷ [];
}

abbrev evm_address : Text
evm_address = codes "0xA0b86991c6218b36c1d19D4a2e9Eb0cE3606eB48"

abbrev evm_state : State no_prices (answering one)
evm_state = record {
  blocks = [];
  inner = record { validated_chain_ids = []; token_decimals = []; outside = 1000 };
}

collect_chain-IsAnswer_example :
    let (r', result, metrics) =
      collect_chain no_prices
        (answering one)
        (config ∷ [])
        60
        evm_address
        (codes "base")
        evm_state in
    Answers (IsAnswer (config ∷ []) (codes "base")) (r', result)
collect_chain-IsAnswer_example =
    collect_chain-IsAnswer no_prices (answering one) (config ∷ []) 60 evm_address (codes "base")
      evm_state

-- An endpoint that answers with a list breaks the call.
abbrev empty_list : Json
empty_list = Json.array Items.nil

rpc_call-broke_with_example :
    is_some (
      broke_with
        (Evm.rpc_call
          (answering empty_list)
          (codes "https://a")
          8
          (codes "eth_chainId")
          empty_list
          0).1)
    ≡ true
rpc_call-broke_with_example =
    rpc_call-broke_with (answering empty_list) (codes "https://a") 8 (codes "eth_chainId")
      empty_list 0

abbrev accounts : Items
accounts =
    Items.item
      (Json.object (
        Fields.field (codes "account")
          (Json.object (
            Fields.field (codes "data")
              (Json.object (
                Fields.field (codes "parsed")
                  (Json.object (
                    Fields.field (codes "info")
                      (Json.object (
                        Fields.field (codes "mint")
                          (Json.string (codes "EPjFWdd5AufqSSqeM2qN1xzybapC8G4wEGGkZwyTDt1v"))
                          (Fields.field (codes "tokenAmount")
                            (Json.object (
                              Fields.field (codes "amount") (Json.string (codes "25"))
                                (Fields.field (codes "decimals") (Json.int (pos 6)) Fields.end)))
                            Fields.end)))
                      Fields.end))
                  Fields.end))
              Fields.end))
          Fields.end))
      Items.nil

abbrev account_list : Json
account_list = Json.object (Fields.field (codes "value") (Json.array accounts) Fields.end)

abbrev usdc : Text
usdc = codes "EPjFWdd5AufqSSqeM2qN1xzybapC8G4wEGGkZwyTDt1v"

usdc_tracked : is_some (token_of usdc Solana.tracked_spl_tokens) ≡ true
unfolding text_eq
usdc_tracked = refl

value_found : get (codes "value") account_list ≡ some (Json.array accounts)
unfolding text_eq
value_found = refl

parse_token_accounts-sum_of_example :
    Returned {S = ℕ}
      (λ amounts. amount_at usdc amounts ≡ sum_of usdc (pos 0) accounts)
      (parse_token_accounts Solana.tracked_spl_tokens account_list (0))
parse_token_accounts-sum_of_example =
    parse_token_accounts-sum_of Solana.tracked_spl_tokens usdc usdc_tracked accounts account_list 0
      value_found

adds_25 : sum_of usdc (pos 0) accounts ≡ pos 25
unfolding sum_of text_eq read_int strip ◌+ℤ◌
adds_25 = refl

-- The address of the token program has 32 bytes.
program_valid : Solana.is_valid_address Solana.spl_token_program_id ≡ true
unfolding Solana.is_valid_address text_eq
program_valid = refl

is_valid_address-IsKey_example : IsKey Solana.spl_token_program_id
is_valid_address-IsKey_example = is_valid_address-IsKey Solana.spl_token_program_id program_valid

abbrev solana_state : Solana.State no_prices (answering account_list) 8 Solana.tracked_spl_tokens
solana_state = record { blocks = []; inner = 1000 }

collect_wallet-IsAnswer_example :
    let (r', result, metrics) =
      Solana.collect_wallet no_prices
        (answering account_list)
        8
        Solana.tracked_spl_tokens
        urls
        60
        Solana.spl_token_program_id
        solana_state in
    Answers (SolanaResults.IsAnswer Solana.tracked_spl_tokens) (r', result)
collect_wallet-IsAnswer_example =
    SolanaResults.collect_wallet-IsAnswer no_prices (answering account_list) 8
      Solana.tracked_spl_tokens urls 60 Solana.spl_token_program_id solana_state
