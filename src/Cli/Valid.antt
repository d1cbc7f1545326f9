-- ===== src/Cli/Valid.antt =====
-- The key-management commands of src/cli.rs keep the database valid.
use Prim.Native.String.{String}
use albion_rest_api.Base.{
  ◌+◌, ◌≡◌, refl, Bool, false, [], ◌∷◌, ◌++◌, arith, ◌==◌, Bool-cases, Option-cases, inl, inr, ◌||◌,
}
use albion_rest_api.Database.{ApiKeyRow, Database, contains_key, deactivate, remove_key}
use albion_rest_api.Database.Keys.{IsValid}
use albion_rest_api.Cli.{
  PasswordHashing, Draw, KeysCommand, create, list, revoke, delete, hash_secret, create_key,
  list_keys, revoke_key, delete_key, handle_keys_command,
}
use albion_rest_api.Cli.Rows.{
  contains_id-snoc, UniqueKeys-snoc, UniqueIds-snoc, Below-snoc, Owned-mono, Owned-cascade,
  contains_id-deactivate, UniqueKeys-deactivate, UniqueIds-deactivate, Below-deactivate,
  UniqueKeys-remove_key, UniqueIds-remove_key, Below-remove_key,
}

module _ {db : Database} (v : IsValid db) where
  -- Appending a row with the next id and a new key keeps the database valid.
  snoc-IsValid :
      (row : ApiKeyRow)
      → row.id ≡ db.next_id
      → contains_key row.key_id db.api_keys ≡ false
      → IsValid (record db { api_keys = db.api_keys ++ row ∷ []; next_id = db.next_id + 1 })
  snoc-IsValid row e h = record {
    unique_keys = UniqueKeys-snoc db.api_keys row v.unique_keys h;
    unique_ids = UniqueIds-snoc db.api_keys row v.unique_ids (rw e v.fresh);
    fresh = Below-snoc db.next_id db.api_keys row v.fresh e;
    owned =
        Owned-mono db.api_keys (db.api_keys ++ row ∷ []) db.usage_logs
          (λ i m. ground (arith, contains_id-snoc i db.api_keys row)) v.owned;
  }

  create_key-IsValid :
      (p : PasswordHashing) (draw : Draw) (label owner : String) (admin : Bool)
      → IsValid (create_key p draw label owner admin db).1
  unfolding create_key
  create_key-IsValid p draw label owner admin = elim (Option-cases (hash_secret p draw)) [
    | inl e ↦ rw (e, create_key) v
    | inr (hash, e) ↦
        rw (e, create_key)
          (elim (Bool-cases (db.faulty || contains_key draw.uuid db.api_keys)) [
            | inl bad ↦ rw bad v
            | inr good ↦ rw good (snoc-IsValid _ refl (ground arith))
          ])
  ]

  revoke_key-IsValid : (time key_id : String) → IsValid (revoke_key time key_id db).1
  unfolding revoke_key
  revoke_key-IsValid time key_id = elim (Bool-cases db.faulty) [
    | inl e ↦ simp e v
    | inr e ↦ simp e (elim (Bool-cases ((deactivate time key_id db.api_keys).1 == 0)) [
      | inl z ↦ rw z v
      | inr z ↦ rw z (record {
        unique_keys = UniqueKeys-deactivate time key_id db.api_keys v.unique_keys;
        unique_ids = UniqueIds-deactivate time key_id db.api_keys v.unique_ids;
        fresh = Below-deactivate time key_id db.next_id db.api_keys v.fresh;
        owned =
            Owned-mono db.api_keys _ db.usage_logs
              (λ i m. rw (contains_id-deactivate time key_id i db.api_keys) m) v.owned;
      })
    ])
  ]

  delete_key-IsValid : (key_id : String) → IsValid (delete_key key_id db).1
  unfolding delete_key
  delete_key-IsValid key_id = elim (Bool-cases db.faulty) [
    | inl e ↦ simp e v
    | inr e ↦ simp e (elim (Bool-cases ((remove_key key_id db.api_keys).1 == 0)) [
      | inl z ↦ rw z v
      | inr z ↦ rw z (record {
        unique_keys = UniqueKeys-remove_key key_id db.api_keys v.unique_keys;
        unique_ids = UniqueIds-remove_key key_id db.api_keys v.unique_ids;
        fresh = Below-remove_key key_id db.next_id db.api_keys v.fresh;
        owned = Owned-cascade _ db.usage_logs;
      })
    ])
  ]

  list_keys-IsValid : IsValid (list_keys db).1
  unfolding list_keys
  list_keys-IsValid = elim (Bool-cases db.faulty) [ inl e ↦ simp e v | inr e ↦ simp e v ]

-- Every key-management command, whether it succeeds or fails, keeps key ids and row ids unique,
-- row ids below the next one, and every usage log owned by a key that exists.
pub handle_keys_command-IsValid :
    (p : PasswordHashing) (draw : Draw) (command : KeysCommand) (db : Database)
    → IsValid db
    → IsValid (handle_keys_command p draw command db).1
unfolding handle_keys_command
handle_keys_command-IsValid p draw (create label owner admin) db v =
    create_key-IsValid v p draw label owner admin
handle_keys_command-IsValid p draw list db v = list_keys-IsValid v
handle_keys_command-IsValid p draw (revoke key_id) db v = revoke_key-IsValid v draw.time key_id
handle_keys_command-IsValid p draw (delete key_id) db v = delete_key-IsValid v key_id
