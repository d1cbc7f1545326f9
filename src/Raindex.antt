-- ===== src/Raindex.antt =====
-- The types and accessors that the sources use of the rain.orderbook crates: a parameter of the
-- model. An `Address`, a `B256` and a `U256` is its number; a fallible call that the sources only
-- map to one error returns an `Option`.
pub mod Client
pub mod Sample
use Prim.Native.String.{String}
use albion_rest_api.Base.{ℕ, Bool, Option, List, ◌⊎◌}

abbrev pub Address : Type 0
Address = ℕ

abbrev pub B256 : Type 0
B256 = ℕ

abbrev pub Bytes : Type 0
Bytes = List ℕ

-- `RaindexVaultType`.
pub data VaultType : Type 0 where
  input output input_output : VaultType

-- The change of a vault's balance by a trade.
pub record BalanceChange (Float Token : Type 0) : Type 0 where
  pub amount : Float
  pub formatted_amount : String
  pub token : Token

pub record Transaction : Type 0 where
  pub id : B256
  pub from : Address
  pub block_number : ℕ
  pub timestamp : ℕ

pub record Raindex : Type 1 where
  pub RaindexOrder : Type 0
  pub RaindexVault : Type 0
  pub RaindexTrade : Type 0
  pub RaindexOrderQuote : Type 0
  pub Token : Type 0
  pub Float : Type 0
  -- `Token`
  pub address : Token → Address
  pub symbol : Token → Option String
  pub decimals : Token → ℕ
  -- `RaindexVault`
  pub vault_type : RaindexVault → Option VaultType
  pub token : RaindexVault → Token
  pub vault_id : RaindexVault → ℕ
  pub balance : RaindexVault → Float
  pub formatted_balance : RaindexVault → String
  -- `RaindexOrder`
  pub order_hash : RaindexOrder → B256
  pub owner : RaindexOrder → Address
  pub orderbook : RaindexOrder → Address
  pub order_bytes : RaindexOrder → Bytes
  pub chain_id : RaindexOrder → ℕ
  pub timestamp_added : RaindexOrder → ℕ
  pub rainlang : RaindexOrder → Option String
  pub vaults_list : RaindexOrder → List RaindexVault
  pub inputs_list : RaindexOrder → List RaindexVault
  pub outputs_list : RaindexOrder → List RaindexVault
  -- The length of the bytecode, if `OrderV4::abi_decode` accepts the bytes.
  pub bytecode_len : Bytes → Option ℕ
  -- `quote.data`'s `formatted_ratio`
  pub formatted_ratio : RaindexOrderQuote → Option String
  -- `RaindexTrade`
  pub trade_id : RaindexTrade → String
  pub trade_order_hash : RaindexTrade → Bytes
  pub trade_timestamp : RaindexTrade → ℕ
  pub transaction : RaindexTrade → Transaction
  pub input_change : RaindexTrade → BalanceChange Float Token
  pub output_change : RaindexTrade → BalanceChange Float Token
  -- `B256::from_str` of the bytes' text
  pub parse_b256 : Bytes → Option B256
  -- `Float`
  pub zero_float : Option Float
  pub add_float : Float → Float → Option Float
  pub sub_float : Float → Float → Option Float
  pub div_float : Float → Float → Option Float
  pub eq_float : Float → Float → Option Bool
  -- the text of an error, or the answer
  pub is_zero : Float → String ⊎ Bool
  pub format_float : Float → Option String
  -- `s.parse::<f64>().is_ok_and(|b| b > 0.0)`
  pub is_positive : String → Bool
