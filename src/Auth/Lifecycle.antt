-- ===== src/Auth/Lifecycle.antt =====
-- A key's life, over src/cli.rs and src/auth.rs: a created key authenticates, a revoked or deleted
-- one does not.
use Prim.Native.String.{String}
use text.Mathlib.TextEquality.{eq_iff}
use albion_rest_api.Base.{
  ◌≡◌, refl, Bool, true, false, Option, none, some, List, [], ◌∷◌, ◌++◌, arith, inl, inr,
  Option-cases,
}
use albion_rest_api.Error.{unauthorized}
use albion_rest_api.RateLimiter.{Reading}
use albion_rest_api.Database.{
  ApiKeyRow, Database, select_active, contains_key, deactivate, remove_key,
}
use albion_rest_api.Database.Keys.{select_active-deactivate, select_active-remove_key}
use albion_rest_api.Cli.{
  PasswordHashing, Draw, created, revoked, deleted, create_key, revoke_key, delete_key,
}
use albion_rest_api.Auth.{
  Codecs, success, error, Managed, Local, credentials_of, verify_key, authenticate,
}

-- A request whose name selects no active row of a working database is refused with 401, and
-- nothing is charged.
authenticate_unknown :
    (c : Codecs) (r : Reading) (header : Option String) (m : Managed) (l : Local) (db : Database)
    (name secret : String)
    → m.pool ≡ some db
    → db.faulty ≡ false
    → credentials_of c header ≡ success (name, secret)
    → select_active name db.api_keys ≡ none
    → authenticate c r header m l ≡ (error 401 (unauthorized "invalid credentials"), m, l)
unfolding authenticate verify_key
authenticate_unknown c r header m l db name secret p f g s = ground arith

revoke_key-eq :
    (time key_id : String) (db db' : Database)
    → revoke_key time key_id db ≡ (revoked key_id, db')
    → (db'.faulty ≡ false) × (db'.api_keys ≡ (deactivate time key_id db.api_keys).0)
unfolding revoke_key
revoke_key-eq time key_id db db' e = ground arith

delete_key-eq :
    (key_id : String) (db db' : Database)
    → delete_key key_id db ≡ (deleted key_id, db')
    → (db'.faulty ≡ false) × (db'.api_keys ≡ (remove_key key_id db.api_keys).0)
unfolding delete_key
delete_key-eq key_id db db' e = ground arith

-- After `keys revoke` reported success, every request with that key id is refused with 401,
-- whatever its secret, and neither the limiter nor the request's cache changes.
pub revoke_key-authenticate :
    (c : Codecs) (r : Reading) (header : Option String) (m : Managed) (l : Local)
    (time key_id secret : String) (db db' : Database)
    → revoke_key time key_id db ≡ (revoked key_id, db')
    → m.pool ≡ some db'
    → credentials_of c header ≡ success (key_id, secret)
    → authenticate c r header m l ≡ (error 401 (unauthorized "invalid credentials"), m, l)
revoke_key-authenticate c r header m l time key_id secret db db' e p g =
    let (up, rows) = revoke_key-eq time key_id db db' e in
    authenticate_unknown c r header m l db' key_id secret p up g
      (rw rows (select_active-deactivate time key_id db.api_keys))

-- So it is after `keys delete` reported success.
pub delete_key-authenticate :
    (c : Codecs) (r : Reading) (header : Option String) (m : Managed) (l : Local)
    (key_id secret : String) (db db' : Database)
    → delete_key key_id db ≡ (deleted key_id, db')
    → m.pool ≡ some db'
    → credentials_of c header ≡ success (key_id, secret)
    → authenticate c r header m l ≡ (error 401 (unauthorized "invalid credentials"), m, l)
delete_key-authenticate c r header m l key_id secret db db' e p g =
    let (up, rows) = delete_key-eq key_id db db' e in
    authenticate_unknown c r header m l db' key_id secret p up g
      (rw rows (select_active-remove_key key_id db.api_keys))

-- A hash that was made of a secret parses, and verifies it.
pub record IsSoundHashing (p : PasswordHashing) : Type 0 where
  pub verify-hash :
      (secret salt hash : String)
      → p.hash_password secret salt ≡ some hash
      → (parsed : String) × (p.parse_hash hash ≡ some parsed)
        × (p.verify_password secret parsed ≡ true)

select_active-snoc :
    (k : String) (rows : List ApiKeyRow) (row : ApiKeyRow)
    → contains_key k rows ≡ false
    → select_active k (rows ++ row ∷ []) ≡ select_active k (row ∷ [])
unfolding select_active contains_key
select_active-snoc k [] row h = refl
select_active-snoc k (r ∷ rows) row h = ground (arith, select_active-snoc k rows row)

select_active_new :
    (k : String) (row : ApiKeyRow)
    → row.key_id ≡ k
    → row.active ≡ true
    → select_active k (row ∷ []) ≡ some row
unfolding select_active
select_active_new k row e a = ground (arith, eq_iff row.key_id k)

-- If the hashing verifies the hashes that it makes, then after `keys create` printed a key id and a
-- secret, these two are accepted as the credentials of the new row, which has the label, the owner
-- and the admin flag that were asked for.
pub verify_key-create_key :
    (c : Codecs) (draw : Draw) (label owner : String) (admin : Bool) (db db' : Database)
    (key_id secret : String)
    → IsSoundHashing c.hashing
    → create_key c.hashing draw label owner admin db ≡ (created key_id secret, db')
    → (row : ApiKeyRow) × (verify_key c db' (key_id, secret) ≡ success row)
      × (row.id ≡ db.next_id)
      × (row.key_id ≡ key_id)
      × (row.label ≡ label)
      × (row.owner ≡ owner)
      × (row.is_admin ≡ admin)
unfolding create_key verify_key
verify_key-create_key c draw label owner admin db db' key_id secret h e =
    elim (Option-cases (c.hashing.hash_password draw.secret draw.salt)) [
      | inl x ↦ absurd (ground arith)
      | inr (hash, x) ↦
          let (parsed, parses, verified) = h.verify-hash draw.secret draw.salt hash x in
          let row : ApiKeyRow = record {
            id = db.next_id;
            key_id = draw.uuid;
            secret_hash = hash;
            label = label;
            owner = owner;
            active = true;
            is_admin = admin;
            created_at = draw.time;
            updated_at = draw.time;
          } in
          (
            row,
            ground (
              arith,
              select_active-snoc draw.uuid db.api_keys row,
              select_active_new draw.uuid row refl refl,
            ),
            refl,
            ground arith,
            refl,
            refl,
            refl,
          )
    ]
