-- ===== src/Database/Kept.antt =====
-- What the server's own statements keep of the database: the inserts of src/fairings/usage_logger.rs
-- and the settings of src/db/settings.rs.
use Prim.Native.String.{String}
use albion_rest_api.Base.{
  ◌≡◌, refl, ◌∙◌, true, Bool-cases, some, List, [], ◌∷◌, ◌++◌, inl, inr, arith, unwrap_or, All,
  ◌||◌, not,
}
use albion_rest_api.Database.{UsageLog, Database, contains_id, insert_usage, set_setting}
use albion_rest_api.Database.Keys.{IsValid}

-- The keys are the same, and a usage log belongs to one of them if all did before.
pub record IsKept (db db' : Database) : Type 0 where
  pub same_keys : db'.api_keys ≡ db.api_keys
  pub same_next : db'.next_id ≡ db.next_id
  pub owned :
      All (λ log. contains_id log.api_key_id db.api_keys ≡ true) db.usage_logs
      → All (λ log. contains_id log.api_key_id db.api_keys ≡ true) db'.usage_logs

pub IsKept-refl : (db : Database) → IsKept db db
IsKept-refl db = record { same_keys = refl; same_next = refl; owned = λ h. h }

pub IsKept-trans : {a b c : Database} → IsKept a b → IsKept b c → IsKept a c
IsKept-trans {a} {b} {c} p q = record {
  same_keys = q.same_keys ∙ p.same_keys;
  same_next = q.same_next ∙ p.same_next;
  owned = λ h. rw p.same_keys at (q.owned (rw p.same_keys (p.owned h)));
}

pub IsKept-IsValid : {db db' : Database} → IsKept db db' → IsValid db → IsValid db'
IsKept-IsValid {db} {db'} k v = record {
  unique_keys = rw k.same_keys v.unique_keys;
  unique_ids = rw k.same_keys v.unique_ids;
  fresh = rw (k.same_keys, k.same_next) v.fresh;
  owned = rw k.same_keys (k.owned v.owned);
}

All-snoc {ℓ κ} :
    {A : Type ℓ} (P : A → Type κ) (xs : List A) (x : A) → All P xs → P x → All P (xs ++ x ∷ [])
All-snoc P [] x h p = (p, tt)
All-snoc P (y ∷ xs) x (q, h) p = (q, All-snoc P xs x h p)

pub insert_usage-IsKept :
    (log : UsageLog) (db : Database) → IsKept db (unwrap_or (insert_usage log db) db)
unfolding insert_usage
insert_usage-IsKept log db =
    elim (Bool-cases (db.faulty || not (contains_id log.api_key_id db.api_keys))) [
      | inl bad ↦ rw (insert_usage, bad) (IsKept-refl db)
      | inr good ↦
          rw (insert_usage, good)
            (record {
              same_keys = refl;
              same_next = refl;
              owned = λ h.
                  All-snoc (λ log. contains_id log.api_key_id db.api_keys ≡ true) db.usage_logs log
                    h (ground (arith, good));
            })
    ]

pub set_setting-IsKept :
    (key value : String) (db db' : Database) → set_setting key value db ≡ some db' → IsKept db db'
unfolding set_setting
set_setting-IsKept key value db db' h = elim (Bool-cases db.faulty) [
  | inl bad ↦ absurd (ground (arith, bad, h))
  | inr good ↦ record {
    same_keys = ground (arith, good, h);
    same_next = ground (arith, good, h);
    owned =
        λ k. (let same : db.usage_logs ≡ db'.usage_logs = ground (arith, good, h) in rw (← same) k);
  }
]
