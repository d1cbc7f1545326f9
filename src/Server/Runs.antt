-- ===== src/Server/Runs.antt =====
-- Whole runs of the server of src/main.rs, over every list of requests.
use Prim.Native.String.{String}
use text.Mathlib.Text.{◌==◌ as str_eq}
use albion_rest_api.Base.{
  ◌≡◌, refl, ap, ◌∙◌, inl, inr, Bool-cases, false, ◌&&◌, Option, some, List, [], ◌∷◌, All, arith,
}
use albion_rest_api.Raindex.{Raindex}
use albion_rest_api.RateLimiter.{Reading}
use albion_rest_api.Database.{ApiKeyRow, Database, select_active}
use albion_rest_api.Database.Keys.{IsValid}
use albion_rest_api.Database.Kept.{IsKept, IsKept-IsValid, IsKept-refl, IsKept-trans}
use albion_rest_api.Auth.{Codecs, Managed, limit_global}
use albion_rest_api.Auth.Usage.{limit_global-pool}
use albion_rest_api.Registry.{RegistryLibrary}
use albion_rest_api.Handlers.{Request, Calls}
use albion_rest_api.Handlers.Route.{IsAdminUpdate, route-IsAdminUpdate}
use albion_rest_api.Server.{
  Asked, endpoint, health, refused, unmatched, Incoming, fresh_local, Server, dispatch,
  serve_request, serve_requests,
}
use albion_rest_api.Server.Keys.{IsPoolKept, serve_request-IsPoolKept}

select_active-All {ℓ} :
    (P : ApiKeyRow → Type ℓ) (key_id : String) (rows : List ApiKeyRow) (row : ApiKeyRow)
    → All P rows
    → select_active key_id rows ≡ some row
    → P row
unfolding select_active
select_active-All P key_id [] row h found = absurd cc
select_active-All P key_id (first ∷ rows) row (p, h) found =
    elim (Bool-cases (str_eq first.key_id key_id && first.active)) [
      | inl here ↦ (let same : first ≡ row = ground (arith, here, found) in rw (← same) p)
      | inr later ↦ select_active-All P key_id rows row h (ground (arith, later, found))
    ]

abbrev pub NoAdmin : Database → Type 0
NoAdmin db = All (λ row. row.is_admin ≡ false) db.api_keys

module _ (X : Raindex) (L : RegistryLibrary X) (C : Calls X) (c : Codecs) where
  not-IsAdminUpdate :
      (r : Reading) (header : Option String) (m : Managed) (db : Database) (req : Request)
      → m.pool ≡ some db
      → NoAdmin db
      → ¬ IsAdminUpdate X L C c r header m req
  unfolding IsAdminUpdate
  not-IsAdminUpdate r header m db req has none_admin (worker, url, key, is, granted, admin) =
      let same : granted.db ≡ db = ground (arith, granted.has_pool, has) in
      let member =
        select_active-All (λ row. row.is_admin ≡ false) granted.name granted.db.api_keys granted.row
          (rw same none_admin) granted.selected in
      let is_key : key.is_admin ≡ granted.row.is_admin = ap (λ k. k.is_admin) granted.is_key in
      ground (arith, member, admin, is_key)

  dispatch-provider :
      (r r' : Reading) (id : String) (header : Option String) (asked : Asked) (v : Server X L C)
      (db : Database)
      → v.managed.pool ≡ some db
      → NoAdmin db
      → (dispatch X L C c r r' id header asked v).3.provider ≡ v.service.provider
  unfolding dispatch
  dispatch-provider r r' id header (endpoint req) v db has none_admin =
      elim (route-IsAdminUpdate X L C c r r' header req v.managed fresh_local v.service) [
        | inl same ↦ same
        | inr update ↦ absurd (
            not-IsAdminUpdate r' header (limit_global r v.managed fresh_local).1 db req
              (limit_global-pool r v.managed fresh_local ∙ has) none_admin update)
      ]
  dispatch-provider r r' id header health v db has none_admin = refl
  dispatch-provider r r' id header (refused admin status) v db has none_admin = refl
  dispatch-provider r r' id header unmatched v db has none_admin = refl

  -- What is left of the database of a pool that has one.
  IsPoolKept-some :
      (db : Database) (before after : Option Database)
      → before ≡ some db
      → IsPoolKept before after
      → (db' : Database) × (after ≡ some db') × IsKept db db'
  unfolding IsPoolKept
  IsPoolKept-some db before after has kept = rw has at kept

  serve_requests-IsKept :
      (inputs : List (Reading × Reading × String × Incoming)) (v : Server X L C) (db : Database)
      → v.managed.pool ≡ some db
      → (db' : Database) × ((serve_requests X L C c inputs v).1.managed.pool ≡ some db')
        × IsKept db db'
  unfolding serve_requests
  serve_requests-IsKept [] v db has = (db, has, IsKept-refl db)
  serve_requests-IsKept ((r, r', uuid, inc) ∷ inputs) v db has =
      let next = (serve_request X L C c r r' uuid inc v).1 in
      let (db', has', kept) =
        IsPoolKept-some db v.managed.pool next.managed.pool has
          (serve_request-IsPoolKept X L C c r r' uuid inc v) in
      let (db'', has'', kept') = serve_requests-IsKept inputs next db' has' in
      (db'', has'', IsKept-trans kept kept')

  -- Whatever requests a server gets, the keys of its database stay as they are, and a valid database
  -- stays valid: keys and ids stay unique, and every usage log belongs to a key.
  pub serve_requests-IsValid :
      (inputs : List (Reading × Reading × String × Incoming)) (v : Server X L C) (db : Database)
      → v.managed.pool ≡ some db
      → IsValid db
      → (db' : Database) × ((serve_requests X L C c inputs v).1.managed.pool ≡ some db')
        × (db'.api_keys ≡ db.api_keys)
        × IsValid db'
  serve_requests-IsValid inputs v db has valid =
      let (db', has', kept) = serve_requests-IsKept inputs v db has in
      (db', has', kept.same_keys, IsKept-IsValid kept valid)

  -- If no key of the database is an admin's, then no list of requests, whatever they ask for and
  -- whatever credentials they carry, replaces the provider: the registry that is served stays the same.
  pub serve_requests-NoAdmin :
      (inputs : List (Reading × Reading × String × Incoming)) (v : Server X L C) (db : Database)
      → v.managed.pool ≡ some db
      → NoAdmin db
      → (serve_requests X L C c inputs v).1.service.provider ≡ v.service.provider
  unfolding serve_requests serve_request
  serve_requests-NoAdmin [] v db has none_admin = refl
  serve_requests-NoAdmin ((r, r', uuid, inc) ∷ inputs) v db has none_admin =
      let next = (serve_request X L C c r r' uuid inc v).1 in
      let (db', has', kept) =
        IsPoolKept-some db v.managed.pool next.managed.pool has
          (serve_request-IsPoolKept X L C c r r' uuid inc v) in
      serve_requests-NoAdmin inputs next db' has' (rw kept.same_keys none_admin)
      ∙ dispatch-provider r r' _ inc.authorization inc.asked v db has none_admin
