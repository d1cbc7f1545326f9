-- ===== src/Cli.antt =====
-- src/cli.rs: the key-management commands and the secrets of src/auth.rs that they store. The
-- random numbers, the identifier, the hash and the time that a run draws are its arguments.
pub mod Rows
pub mod Valid
pub mod Listing
use Prim.Native.String.{String}
use albion_rest_api.Base.{
  ℕ, suc, ◌+◌, Bool, true, false, ◌||◌, Option, none, some, List, [], ◌∷◌, ◌++◌, ◌==◌,
  if◌then◌else◌,
}
use albion_rest_api.Text.{◌+++◌}
use albion_rest_api.Text.Order.{text_ltb}
use albion_rest_api.Database.{ApiKeyRow, Database, contains_key, deactivate, remove_key, cascade}

-- Argon2 of the `argon2` crate.
pub record PasswordHashing : Type 0 where
  pub hash_password : String → String → Option String
  pub parse_hash : String → Option String
  pub verify_password : String → String → Bool

-- What one run of `create` draws: a fresh UUID, the encoded random secret, the salt, the time.
pub record Draw : Type 0 where
  pub uuid : String
  pub secret : String
  pub salt : String
  pub time : String

pub data KeysCommand : Type 0 where
  create : String → String → Bool → KeysCommand
  list : KeysCommand
  revoke delete : String → KeysCommand

-- What a command prints at its end, or the error that it returns.
pub data Outcome : Type 0 where
  created : String → String → Outcome
  listed : List ApiKeyRow → Outcome
  revoked deleted : String → Outcome
  failed : String → Outcome

unfoldable pub hash_secret : PasswordHashing → Draw → Option String
hash_secret p draw = p.hash_password draw.secret draw.salt

unfoldable pub create_key :
    PasswordHashing → Draw → String → String → Bool → Database → Outcome × Database
unfolding hash_secret
create_key p draw label owner admin db = elim (hash_secret p draw) [
  | none ↦ (failed "failed to hash secret", db)
  | some secret_hash ↦
      if db.faulty || contains_key draw.uuid db.api_keys
      then (failed "failed to insert API key", db)
      else (
        created draw.uuid draw.secret,
        record db {
          api_keys =
              db.api_keys
              ++ record {
                id = db.next_id;
                key_id = draw.uuid;
                secret_hash = secret_hash;
                label = label;
                owner = owner;
                active = true;
                is_admin = admin;
                created_at = draw.time;
                updated_at = draw.time;
              }
                ∷ [];
          next_id = db.next_id + 1;
        },
      )
]

-- `ORDER BY created_at DESC`; rows of one time keep the order of the table.
unfoldable pub place_key : ApiKeyRow → List ApiKeyRow → List ApiKeyRow
place_key row [] = row ∷ []
place_key row (other ∷ rows) =
    let rest = place_key row rows in
    if text_ltb row.created_at other.created_at then other ∷ rest else row ∷ other ∷ rows

unfoldable pub sort_keys : List ApiKeyRow → List ApiKeyRow
sort_keys [] = []
sort_keys (row ∷ rows) = place_key row (sort_keys rows)

unfoldable pub list_keys : Database → Outcome × Database
unfolding sort_keys
list_keys db =
    if db.faulty
    then (failed "failed to query API keys", db)
    else (listed (sort_keys db.api_keys), db)

abbrev not_found : String → Outcome
not_found key_id = failed ("API key " +++ key_id +++ " not found")

unfoldable pub revoke_key : String → String → Database → Outcome × Database
revoke_key time key_id db =
    let (rows, affected) = deactivate time key_id db.api_keys in
    if db.faulty
    then (failed "failed to revoke API key", db)
    else if affected == 0
    then (not_found key_id, db)
    else (revoked key_id, record db { api_keys = rows })

unfoldable pub delete_key : String → Database → Outcome × Database
delete_key key_id db =
    let (rows, affected) = remove_key key_id db.api_keys in
    if db.faulty
    then (failed "failed to delete API key", db)
    else if affected == 0
    then (not_found key_id, db)
    else (deleted key_id, record db { api_keys = rows; usage_logs = cascade rows db.usage_logs })

unfoldable pub handle_keys_command :
    PasswordHashing → Draw → KeysCommand → Database → Outcome × Database
unfolding create_key list_keys revoke_key delete_key
handle_keys_command p draw (create label owner admin) db = create_key p draw label owner admin db
handle_keys_command p draw list db = list_keys db
handle_keys_command p draw (revoke key_id) db = revoke_key draw.time key_id db
handle_keys_command p draw (delete key_id) db = delete_key key_id db
