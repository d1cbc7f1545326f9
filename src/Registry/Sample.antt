-- ===== src/Registry/Sample.antt =====
-- A small library and a service over it, for the tests of other modules.
use Prim.Native.String.{String}
use text.Mathlib.Text.{◌==◌ as str_eq}
use albion_rest_api.Base.{false, none, some, List, [], ◌∷◌, map, length, inl, inr, if◌then◌else◌}
use albion_rest_api.Raindex.{Address, input, output}
use albion_rest_api.Raindex.Client.{RaindexClient, failure, other_error, Orderbook}
use albion_rest_api.Raindex.Sample.{sample, SampleOrder, SampleVault}
use albion_rest_api.Database.{Database}
use albion_rest_api.Registry.{RegistryLibrary, RaindexProvider}
use albion_rest_api.Registry.Service.{empty_caches, registry_key, Service, Config}

abbrev pub buyer : SampleVault
buyer = record { kind = some input; id = 4; amount = 0; shown = "0" }

abbrev pub seller : SampleVault
seller = record { kind = some output; id = 3; amount = 5; shown = "5" }

abbrev pub order_of : Address → SampleOrder
order_of address = record { hash = address; chain = 1; vaults = buyer ∷ seller ∷ [] }

-- It finds one order of each orderbook, with the orderbook's address for its hash.
abbrev pub client : List Orderbook → RaindexClient sample
client orderbooks = record {
  get_orders = λ _ _ _. some (map (λ (_, address). order_of address) orderbooks, length orderbooks);
  get_all_orderbooks = some orderbooks;
  get_order_by_hash = λ _ _. failure other_error;
  get_transaction_trades = λ _ _. none;
  get_transaction = λ _ _. failure other_error;
  get_quotes = λ _. some (some "2" ∷ []);
  get_trades_list = λ _ _ _. some [];
  get_remove_calldata = λ _. none;
}

-- A registry is its address; "b" has the second orderbook, and "" cannot be reached.
abbrev pub library : RegistryLibrary sample
library = record {
  DotrainRegistry = String;
  new_registry = λ url. if str_eq url "down" then inl "unreachable" else inr url;
  registry_url = λ r. r;
  settings = λ r. r;
  new_client =
      λ settings path. inr (client (if str_eq settings "b\n" then (1, 8) ∷ [] else (1, 7) ∷ []));
}

abbrev pub database : Database
database = record { api_keys = []; next_id = 1; usage_logs = []; settings = []; faulty = false }

abbrev pub provider : String → List Orderbook → RaindexProvider sample library
provider url orderbooks = record {
  registry = url;
  client = client orderbooks;
  db_path = some "local.db";
}

abbrev pub stored : String → Database
stored url = record database { settings = (registry_key, url) ∷ [] }

abbrev pub service : Service sample library
service = record {
  provider = provider "a" ((1, 7) ∷ []);
  database = stored "a";
  caches = empty_caches;
  direct_trades = some (1, 7);
}

abbrev pub config : Config
config = record {
  log_dir = "logs";
  database_url = "api.db";
  registry_url = "a";
  rate_limit_global_rpm = 9;
  rate_limit_per_key_rpm = 1;
  docs_dir = "docs";
  local_db_path = "local.db";
}
