-- ===== src/Vaults.antt =====
-- src/routes/mod.rs: the input and the output vault of an order.
pub mod Laws
use albion_rest_api.Base.{
  Bool, true, false, ◌&&◌, Option, none, some, List, [], ◌∷◌, if◌then◌else◌, is_some,
}
use albion_rest_api.Error.{Result, ok, err, internal, ◌>>=◌}
use albion_rest_api.Raindex.{Raindex, VaultType, input, output, input_output}

-- `if slot.is_none() { slot = Some(v) }`
abbrev pub keep_first {ℓ} : {A : Type ℓ} → Option A → A → Option A
keep_first none v = some v
keep_first (some u) v = some u

-- `ok_or_else`
abbrev pub ok_or {ℓ} : {A : Type ℓ} → Option A → Result A → Result A
ok_or none e = e
ok_or (some a) e = ok a

module _ (X : Raindex) where
  open X use {RaindexOrder, RaindexVault, vault_type, vaults_list}

  abbrev Slots : Type 0
  Slots = Option RaindexVault × Option RaindexVault

  -- The `match` of one round.
  unfoldable pub take_vault : Option VaultType → RaindexVault → Slots → Slots
  take_vault (some input) v (i, o) = (keep_first i v, o)
  take_vault (some output) v (i, o) = (i, keep_first o v)
  take_vault (some input_output) v (i, o) = (keep_first i v, keep_first o v)
  take_vault none v (i, o) = (i, o)

  -- The loop, which stops when both are found.
  unfoldable pub scan_vaults : List RaindexVault → Slots → Slots
  scan_vaults [] slots = slots
  scan_vaults (v ∷ vs) slots =
      let next = take_vault (vault_type v) v slots in
      if is_some (next.0) && is_some (next.1) then next else scan_vaults vs next

  unfoldable pub resolve_io_vaults : RaindexOrder → Result (RaindexVault × RaindexVault)
  resolve_io_vaults order =
      let slots = scan_vaults (vaults_list order) (none, none) in
      ok_or slots.0 (err (internal "order has no input vaults")) >>= λ i.
      ok_or slots.1 (err (internal "order has no output vaults")) >>= λ o. ok (i, o)
