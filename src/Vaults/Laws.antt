-- ===== src/Vaults/Laws.antt =====
-- The scan against two independent searches.
use albion_rest_api.Base.{
  ◌≡◌, refl, Bool, true, false, Option, none, some, List, [], ◌∷◌, if◌then◌else◌, arith,
}
use albion_rest_api.Error.{ok, err, internal, ◌>>=◌}
use albion_rest_api.Raindex.{Raindex, VaultType, input, output, input_output}
use albion_rest_api.Vaults.{ok_or, take_vault, scan_vaults, resolve_io_vaults}

unfoldable pub is_input : Option VaultType → Bool
is_input none = false
is_input (some input) = true
is_input (some output) = false
is_input (some input_output) = true

unfoldable pub is_output : Option VaultType → Bool
is_output none = false
is_output (some input) = false
is_output (some output) = true
is_output (some input_output) = true

unfoldable pub find_first {ℓ} : {A : Type ℓ} → (A → Bool) → List A → Option A
find_first p [] = none
find_first p (x ∷ xs) = if p x then some x else find_first p xs

module _ (X : Raindex) where
  open X use {RaindexOrder, RaindexVault, vault_type, vaults_list}

  -- The first vault of a direction.
  unfoldable pub first_input : List RaindexVault → Option RaindexVault
  first_input = find_first (λ v. is_input (vault_type v))

  unfoldable pub first_output : List RaindexVault → Option RaindexVault
  first_output = find_first (λ v. is_output (vault_type v))

  scan_vaults-find_first :
      (vs : List RaindexVault) (i o : Option RaindexVault)
      → scan_vaults X vs (i, o) ≡ (
        (elim i [ none ↦ first_input vs | some a ↦ some a ]),
        (elim o [ none ↦ first_output vs | some a ↦ some a ]),
      )
  unfolding scan_vaults take_vault first_input first_output find_first is_input is_output
  scan_vaults-find_first [] none none = refl
  scan_vaults-find_first [] none (some o) = refl
  scan_vaults-find_first [] (some i) none = refl
  scan_vaults-find_first [] (some i) (some o) = refl
  scan_vaults-find_first (v ∷ vs) none none = ground (
    arith,
    scan_vaults-find_first vs none none,
    scan_vaults-find_first vs (some v) none,
    scan_vaults-find_first vs none (some v),
  )
  scan_vaults-find_first (v ∷ vs) none (some o) =
      ground (arith, scan_vaults-find_first vs none (some o))
  scan_vaults-find_first (v ∷ vs) (some i) none =
      ground (arith, scan_vaults-find_first vs (some i) none)
  scan_vaults-find_first (v ∷ vs) (some i) (some o) = ground arith

  -- The resolved vaults are the first vault of each direction in the order's list, a vault of both
  -- directions counting for each; a missing input is reported before a missing output.
  pub resolve_io_vaults-find_first :
      (order : RaindexOrder)
      → resolve_io_vaults X order ≡ (
          ok_or (first_input (vaults_list order)) (err (internal "order has no input vaults"))
          >>= λ i.
              ok_or (first_output (vaults_list order)) (err (internal "order has no output vaults"))
              >>= λ o. ok (i, o))
  unfolding resolve_io_vaults
  resolve_io_vaults-find_first order =
      rw (scan_vaults-find_first (vaults_list order) none none) refl
