-- ===== src/ChainConfig.antt =====
-- app/services/chain_config.py: the chains, their tokens and their endpoints, from the settings.
pub mod Enabled
use py_wallet_snapshot_servi.Prelude.{
  ℕ, Bool, true, false, not, Option, none, some, List, [], ◌∷◌, map, filter, find?, if◌then◌else◌,
  Text, codes, text_eq, text_in, strip, is_empty, split_commas,
}

-- The part of app/config.py's settings that is read here.
pub record ChainSettings : Type 0 where
  pub snapshot_enabled_chains : Text
  pub chain_timeout_seconds : ℕ
  pub ethereum_timeout_seconds : ℕ
  pub ethereum_rpc_url : Text
  pub base_rpc_url : Text
  pub arbitrum_rpc_url : Text
  pub bnb_rpc_url : Text
  pub linea_rpc_url : Text
  pub solana_rpc_url : Text

pub record TokenConfig : Type 0 where
  pub symbol : Text
  pub address : Text
  pub price_symbol : Text

-- A token with the default price symbol.
abbrev token : Text → Text → TokenConfig
token symbol address = record { symbol = symbol; address = address; price_symbol = codes "USDC" }

pub record ChainConfig : Type 0 where
  pub name : Text
  pub native_symbol : Text
  pub expected_chain_id : ℕ
  pub rpc_urls : List Text
  pub timeout_seconds : ℕ
  pub coingecko_platform : Text
  pub tokens : List TokenConfig

-- The property `rpc_url`.
abbrev pub rpc_url : ChainConfig → Text
rpc_url config = elim config.rpc_urls as (λ _. Text) [ [] ↦ [] | url ∷ _ ↦ url ]

abbrev pub supported_chains : List Text
supported_chains =
    codes "mainnet" ∷ codes "base" ∷ codes "arbitrum" ∷ codes "bnb" ∷ codes "linea" ∷ []

abbrev pub mainnet_tokens : List TokenConfig
mainnet_tokens =
    token (codes "USDC") (codes "0xA0b86991c6218b36c1d19D4a2e9Eb0cE3606eB48")
    ∷ (record {
      symbol = codes "WETH";
      address = codes "0xC02aaA39b223FE8D0A0e5C4F27eAD9083C756Cc2";
      price_symbol = codes "ETH";
    })
    ∷ (record {
      symbol = codes "WBTC";
      address = codes "0x2260FAC5E5542a773Aa44fBCfeDf7C193bc2C599";
      price_symbol = codes "BTC";
    })
    ∷ []

abbrev pub base_tokens : List TokenConfig
base_tokens =
    token (codes "USDC") (codes "0x833589fCD6eDb6E08f4c7C32D4f71b54bdA02913")
    ∷ token (codes "USDbC") (codes "0xd9aAEc86B65D86f6A7B5B1b0c42FFA531710b6CA")
    ∷ []

abbrev pub arbitrum_tokens : List TokenConfig
arbitrum_tokens =
    token (codes "USDC") (codes "0xaf88d065e77c8cC2239327C5EDb3A432268e5831")
    ∷ token (codes "USDC.e") (codes "0xFF970A61A04b1cA14834A43f5de4533eBDDB5CC8")
    ∷ []

abbrev pub bnb_tokens : List TokenConfig
bnb_tokens =
    token (codes "BINANCE_PEG_USDC") (codes "0x8AC76a51cc950d9822D68b83fE1Ad97B32Cd580d") ∷ []

abbrev pub linea_tokens : List TokenConfig
linea_tokens = token (codes "USDC") (codes "0x176211869cA2b568f2A7D4EE941E073a821EE1ff") ∷ []

-- The parts between commas, stripped, that are not empty.
abbrev pub parts : Text → List Text
parts value = filter (λ part. not (is_empty part)) (map strip (split_commas value))

-- `_rpc_urls`
unfoldable pub split_rpc_urls : Text → List Text
unfolding strip split_commas
split_rpc_urls value = parts value

abbrev pub get_solana_rpc_urls : ChainSettings → List Text
get_solana_rpc_urls settings = split_rpc_urls settings.solana_rpc_url

-- `dict.fromkeys`: the first of equal texts stays.
unfoldable pub unique : List Text → List Text
unique [] = []
unique (s ∷ ss) = s ∷ filter (λ t. not (text_eq s t)) (unique ss)

abbrev pub or_all : List Text → List Text
or_all [] = supported_chains
or_all (c ∷ cs) = c ∷ cs

unfoldable pub get_enabled_chains : ChainSettings → List Text
unfolding unique
get_enabled_chains settings = or_all (
    filter (λ chain. text_in chain supported_chains)
      (unique (parts settings.snapshot_enabled_chains)))

abbrev pub get_chain_configs : ChainSettings → List ChainConfig
get_chain_configs settings =
    (record {
      name = codes "mainnet";
      native_symbol = codes "ETH";
      expected_chain_id = 1;
      rpc_urls = split_rpc_urls settings.ethereum_rpc_url;
      timeout_seconds = settings.ethereum_timeout_seconds;
      coingecko_platform = codes "ethereum";
      tokens = mainnet_tokens;
    })
    ∷ (record {
      name = codes "base";
      native_symbol = codes "ETH";
      expected_chain_id = 8453;
      rpc_urls = split_rpc_urls settings.base_rpc_url;
      timeout_seconds = settings.chain_timeout_seconds;
      coingecko_platform = codes "base";
      tokens = base_tokens;
    })
    ∷ (record {
      name = codes "arbitrum";
      native_symbol = codes "ETH";
      expected_chain_id = 42161;
      rpc_urls = split_rpc_urls settings.arbitrum_rpc_url;
      timeout_seconds = settings.chain_timeout_seconds;
      coingecko_platform = codes "arbitrum-one";
      tokens = arbitrum_tokens;
    })
    ∷ (record {
      name = codes "bnb";
      native_symbol = codes "BNB";
      expected_chain_id = 56;
      rpc_urls = split_rpc_urls settings.bnb_rpc_url;
      timeout_seconds = settings.chain_timeout_seconds;
      coingecko_platform = codes "binance-smart-chain";
      tokens = bnb_tokens;
    })
    ∷ (record {
      name = codes "linea";
      native_symbol = codes "ETH";
      expected_chain_id = 59144;
      rpc_urls = split_rpc_urls settings.linea_rpc_url;
      timeout_seconds = settings.chain_timeout_seconds;
      coingecko_platform = codes "linea";
      tokens = linea_tokens;
    })
    ∷ []

-- `configs.get(name)`
abbrev pub get_config : Text → List ChainConfig → Option ChainConfig
get_config name = find? λ (c : ChainConfig). text_eq name c.name
