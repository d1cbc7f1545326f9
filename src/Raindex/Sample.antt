-- ===== src/Raindex/Sample.antt =====
-- A small instance of the library's types, for the tests of the other modules.
use Prim.Native.String.{String}
use text.Mathlib.Text.{◌==◌ as str_eq}
use albion_rest_api.Base.{
  inr, ℕ, ◌+◌, ◌-◌, ◌/◌, not, Option, none, some, List, [], ◌∷◌, ◌==◌, length,
}
use albion_rest_api.Raindex.{Raindex, VaultType, BalanceChange, Transaction, Bytes}

pub record SampleVault : Type 0 where
  pub kind : Option VaultType
  pub id : ℕ
  pub amount : ℕ
  pub shown : String

pub record SampleOrder : Type 0 where
  pub hash : ℕ
  pub chain : ℕ
  pub vaults : List SampleVault

pub record SampleTrade : Type 0 where
  pub id : String
  pub of_order : Bytes
  pub at : ℕ
  pub within : Transaction
  pub came_in : BalanceChange ℕ ℕ
  pub went_out : BalanceChange ℕ ℕ

-- The first number of the bytes is the hash.
unfoldable pub parse_number : Bytes → Option ℕ
parse_number [] = none
parse_number (n ∷ _) = some n

abbrev pub sample : Raindex
sample = record {
  RaindexOrder = SampleOrder;
  RaindexVault = SampleVault;
  RaindexTrade = SampleTrade;
  RaindexOrderQuote = Option String;
  Token = ℕ;
  Float = ℕ;
  address = λ t. t;
  symbol = λ _. some "TKN";
  decimals = λ _. 18;
  vault_type = λ v. v.kind;
  token = λ v. v.id;
  vault_id = λ v. v.id;
  balance = λ v. v.amount;
  formatted_balance = λ v. v.shown;
  order_hash = λ o. o.hash;
  owner = λ _. 1;
  orderbook = λ _. 2;
  order_bytes = λ _. [];
  chain_id = λ o. o.chain;
  timestamp_added = λ _. 3;
  rainlang = λ _. none;
  vaults_list = λ o. o.vaults;
  inputs_list = λ o. o.vaults;
  outputs_list = λ o. o.vaults;
  bytecode_len = λ bytes. some (length bytes);
  formatted_ratio = λ q. q;
  trade_id = λ t. t.id;
  trade_order_hash = λ t. t.of_order;
  trade_timestamp = λ t. t.at;
  transaction = λ t. t.within;
  input_change = λ t. t.came_in;
  output_change = λ t. t.went_out;
  parse_b256 = parse_number;
  zero_float = some 0;
  add_float = λ a b. some (a + b);
  sub_float = λ a b. some (a - b);
  div_float = λ a b. some (a / b);
  eq_float = λ a b. some (a == b);
  is_zero = λ a. inr (a == 0);
  format_float = λ _. some "1";
  is_positive = λ s. not (str_eq s "0");
}
