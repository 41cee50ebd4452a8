-- ===== src/Tenants/Outcome.antt =====
-- payflow-app/internal/tenant/tenant.go: what CreateTenantWithAPIKey leaves behind, whatever calls
-- of the database fail.
use payflow_payments_ops_pla.Base.{
  ℕ, ◌≡◌, refl, inl, inr, ◌⊎◌, Option, none, some, List, Bool, false, [], ◌∷◌, any, arith,
}
use payflow_payments_ops_pla.Text.{Text, text_eq, trim_space}
use payflow_payments_ops_pla.Store.{
  Db, Env, Draw, tenant_created, api_key_issued, name, key_prefix, str, Error, db_error, Result, ok,
  err, TxState, stmt,
}
use payflow_payments_ops_pla.Store.Faults.{clean, at}
use payflow_payments_ops_pla.Store.Atomic.{Atomic-cases}
use payflow_payments_ops_pla.Audit.{write}
use payflow_payments_ops_pla.ApiKeys.{hash_api_key, generate_api_key}
use payflow_payments_ops_pla.Tenants.{
  prefix_of, insert_tenant, insert_key, create_tenant_tx, create_tenant,
}
use payflow_payments_ops_pla.Tenants.Keys.{create_tenant-success}
use payflow_payments_ops_pla.Tenants.Safety.{create_tenant-Atomic}

key_cases : (r : Result Text) → ((e : Error) × (r ≡ err e)) ⊎ ((raw : Text) × (r ≡ ok raw))
key_cases (ok raw) = inr (raw, refl)
key_cases (err e) = inl (e, refl)

module _ (env : Env) (draw : Draw) (kid : ℕ) (text : Text) (raw : Text) where
  -- The tenant with its key, whose hash was not in the table, and both audit entries.
  pub record Made (old new : Db) : Type 0 where
    pub fresh : any (λ k. text_eq k.key_hash (hash_api_key env raw)) old.api_keys ≡ false
    pub tenant :
        new.tenants
        ≡ record {
          id = draw.row_id;
          name = trim_space text;
          webhook_url = none;
          webhook_signing_secret = none;
        }
          ∷ old.tenants
    pub key :
        new.api_keys
        ≡ record {
          id = kid;
          tenant_id = draw.row_id;
          key_hash = hash_api_key env raw;
          key_prefix = prefix_of raw;
          created_at = draw.now;
          revoked_at = none;
        }
          ∷ old.api_keys
    pub audited :
        new.audit_events
        ≡ record {
          tenant_id = some draw.row_id;
          event_type = api_key_issued;
          metadata = (key_prefix, str (prefix_of raw)) ∷ [];
        }
          ∷ record {
            tenant_id = some draw.row_id;
            event_type = tenant_created;
            metadata = (name, str (trim_space text)) ∷ [];
          }
          ∷ old.audit_events

module _ (env : Env) (draw : Draw) (kid : ℕ) (bytes : Option (List ℕ)) (text : Text) where
  -- The three ways in which CreateTenantWithAPIKey ends: with a tenant made, and reported as such
  -- or as a failure of the database; with an error and nothing changed.
  pub data Outcome (old : Db) (out : Result (ℕ × Text) × TxState) : Type 0 where
    created :
        (raw : Text)
        → generate_api_key bytes ≡ ok raw
        → Made env draw kid text raw old out.1.db
        → out.0 ≡ ok (draw.row_id, raw)
        → Outcome old out
    unsure :
        (raw : Text)
        → generate_api_key bytes ≡ ok raw
        → Made env draw kid text raw old out.1.db
        → out.0 ≡ err db_error
        → Outcome old out
    refused :
        (e : Error)
        → ((clean (create_tenant env draw kid bytes text) old).0 ≡ err e) ⊎ (e ≡ db_error)
        → out.0 ≡ err e
        → out.1.db ≡ old
        → Outcome old out

  create_tenant_tx-Made :
      (tid : ℕ) (raw : Text) (db db' : Db)
      → clean (create_tenant_tx env draw kid bytes text) db ≡ (ok (tid, raw), db')
      → (tid ≡ draw.row_id) × (generate_api_key bytes ≡ ok raw) × Made env draw kid text raw db db'
  unfolding create_tenant_tx insert_tenant insert_key write stmt
  create_tenant_tx-Made tid raw db db' run = elim (key_cases (generate_api_key bytes)) [
    | inl (e, bad) ↦ absurd (ground (arith, bad))
    | inr (text_of, good) ↦ (
      ground (arith, good),
      ground (arith, good),
      record {
        fresh = ground (arith, good);
        tenant = ground (arith, good);
        key = ground (arith, good);
        audited = ground (arith, good);
      },
    )
  ]

-- Whatever calls of the database fail, CreateTenantWithAPIKey ends in one of three ways: the
-- tenant, its key, whose hash was not in the table, and the audit entries of both are all written,
-- and it returns the tenant's id and the key that was generated; or the same, and it returns a
-- database error; or the tables are as before, and it returns a database error or the error
-- that it returns where no call fails.
pub create_tenant-Outcome :
    (env : Env) (draw : Draw) (kid : ℕ) (bytes : Option (List ℕ)) (text : Text) (db : Db)
    (fs : List Bool)
    → Outcome env draw kid bytes text db (create_tenant env draw kid bytes text (at db fs))
create_tenant-Outcome env draw kid bytes text db fs =
    let out = create_tenant env draw kid bytes text (at db fs) in
    elim (Atomic-cases db (clean (create_tenant env draw kid bytes text) db) out
      (create_tenant-Atomic env draw kid bytes text db fs)) [
        | inl ((tid, raw), run, reply) ↦
            let inside = create_tenant-success env draw kid text db out.1.db tid raw bytes run in
            let (same, made_of, made) =
              create_tenant_tx-Made env draw kid bytes text tid raw db out.1.db inside in
            elim reply [
              | inl done ↦ created raw made_of made (ground (arith, done, same))
              | inr lost ↦ unsure raw made_of made lost
            ]
        | inr (e, reply, same, why) ↦ refused e why reply same
      ]
