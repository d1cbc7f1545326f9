-- ===== src/Registry.antt =====
-- src/raindex/config.rs: the registry and the client that are loaded from its settings. Both are of
-- the rain.orderbook crates.
pub mod Metaboards
pub mod Service
pub mod Update
pub mod Interleaving
pub mod Sample
mod Examples
use Prim.Native.String.{String}
use albion_rest_api.Base.{Option, ◌⊎◌, inl, inr}
use albion_rest_api.Error.{ApiError, internal}
use albion_rest_api.Raindex.{Raindex}
use albion_rest_api.Raindex.Client.{RaindexClient}
use albion_rest_api.Text.{◌+++◌}
use albion_rest_api.Registry.Metaboards.{neutralize_metaboards}

-- What the provider uses of the library; an error has its text.
pub record RegistryLibrary (X : Raindex) : Type 1 where
  pub DotrainRegistry : Type 0
  pub new_registry : String → String ⊎ DotrainRegistry
  pub registry_url : DotrainRegistry → String
  pub settings : DotrainRegistry → String
  -- of the settings and the path of the database
  pub new_client : String → Option String → String ⊎ RaindexClient X

pub data RaindexProviderError : Type 0 where
  registry_load client_init : String → RaindexProviderError
  worker_panicked : RaindexProviderError

-- Its `Display`.
unfoldable pub error_text : RaindexProviderError → String
error_text (registry_load e) = "failed to load registry: " +++ e
error_text (client_init e) = "failed to create raindex client: " +++ e
error_text worker_panicked = "worker thread panicked"

-- `From<RaindexProviderError> for ApiError`.
unfoldable pub provider_api_error : RaindexProviderError → ApiError
provider_api_error (registry_load _) = internal "registry configuration error"
provider_api_error (client_init _) = internal "failed to initialize orderbook client"
provider_api_error worker_panicked = internal "failed to initialize client runtime"

-- How the worker thread of `load` goes: its runtime cannot be built, it panics, or it runs.
pub data Worker : Type 0 where
  no_runtime : String → Worker
  panics runs : Worker

module _ (X : Raindex) (L : RegistryLibrary X) where
  open L use {DotrainRegistry}

  pub record RaindexProvider : Type 0 where
    pub registry : DotrainRegistry
    pub client : RaindexClient X
    pub db_path : Option String

  unfoldable pub init_client :
      DotrainRegistry → Option String → RaindexProviderError ⊎ RaindexProvider
  init_client registry db_path =
      elim (L.new_client (neutralize_metaboards (L.settings registry)) db_path) [
        | inl e ↦ inl (client_init e)
        | inr client ↦ inr (record { registry = registry; client = client; db_path = db_path })
      ]

  unfoldable pub load : Worker → String → Option String → RaindexProviderError ⊎ RaindexProvider
  load (no_runtime e) url db_path = inl (registry_load e)
  load panics url db_path = inl worker_panicked
  load runs url db_path = elim (L.new_registry url) [
    | inl e ↦ inl (registry_load e)
    | inr registry ↦ init_client registry db_path
  ]
