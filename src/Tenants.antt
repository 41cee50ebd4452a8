-- ===== src/Tenants.antt =====
-- payflow-app/internal/tenant/tenant.go: tenants and their API keys.
pub mod Safety
pub mod Keys
pub mod Outcome
use payflow_payments_ops_pla.Base.{
  ℕ, Bool, true, false, not, ◌&&◌, ◌||◌, Option, none, some, List, [], ◌∷◌, find, any, select,
  update_where, count_where, take, length, map, sort_desc, ⊤, ltb, ◌==◌, if◌then◌else◌,
}
use payflow_payments_ops_pla.Text.{Text, text_eq, byte_len, trim_space}
use payflow_payments_ops_pla.Store.{
  Db, Env, Draw, Tenant, ApiKey, tenant_created, api_key_issued, api_key_revoked, name, key_prefix,
  key_id, str, Result, ok, err, db_error, no_rows, invalid_name, Tx, pure, raise, raise_if,
  or_raise, stmt, query, transact, ◌>>=◌, ◌>>◌,
}
use payflow_payments_ops_pla.ApiKeys.{hash_api_key, generate_api_key, is_active}
use payflow_payments_ops_pla.Audit

-- ValidateTenantName: whether it returns nil.
unfoldable pub is_valid_name : Text → Bool
is_valid_name raw =
    let trimmed = trim_space raw in not (ltb (byte_len trimmed) 2 || ltb 128 (byte_len trimmed))

abbrev pub has_tenant_id : ℕ → Tenant → Bool
has_tenant_id tid t = t.id == tid

-- INSERT INTO tenants (name) VALUES ($1) RETURNING id.
unfoldable pub insert_tenant : ℕ → Text → Db → Result ℕ × Db
insert_tenant tid text db =
    let row : Tenant = record {
      id = tid;
      name = text;
      webhook_url = none;
      webhook_signing_secret = none;
    } in
    if any (has_tenant_id tid) db.tenants
    then (err db_error, db)
    else (ok tid, record db { tenants = row ∷ db.tenants })

-- `rawAPIKey[:16]`: the key is ASCII, so that a byte is a code point.
abbrev pub prefix_of : Text → Text
prefix_of raw = if ltb 16 (length raw) then take 16 raw else raw

abbrev pub new_key : Env → Draw → ℕ → ℕ → Text → ApiKey
new_key env draw kid tid raw = record {
  id = kid;
  tenant_id = tid;
  key_hash = hash_api_key env raw;
  key_prefix = prefix_of raw;
  created_at = draw.now;
  revoked_at = none;
}

-- INSERT INTO api_keys; key_hash is UNIQUE.
unfoldable pub insert_key : ApiKey → Db → Result ⊤ × Db
insert_key k db =
    if any (λ x. text_eq x.key_hash k.key_hash) db.api_keys || any (λ x. x.id == k.id) db.api_keys
    then (err db_error, db)
    else (ok tt, record db { api_keys = k ∷ db.api_keys })

unfoldable pub from_result : Result Text → Tx Text
from_result (ok raw) = pure raw
from_result (err e) = raise e

-- The transaction of CreateTenantWithAPIKey; `kid` is the id that the database draws for the key.
unfoldable pub create_tenant_tx : Env → Draw → ℕ → Option (List ℕ) → Text → Tx (ℕ × Text)
unfolding from_result
create_tenant_tx env draw kid bytes text = do
  tid ← stmt (insert_tenant draw.row_id (trim_space text))
  raw ← from_result (generate_api_key bytes)
  stmt (insert_key (new_key env draw kid tid raw))
  Audit.write (some tid) tenant_created ((name, str (trim_space text)) ∷ [])
  Audit.write (some tid) api_key_issued ((key_prefix, str (prefix_of raw)) ∷ [])
  pure (tid, raw)

-- CreateTenantWithAPIKey: the tenant's id and the raw key.
unfoldable pub create_tenant : Env → Draw → ℕ → Option (List ℕ) → Text → Tx (ℕ × Text)
create_tenant env draw kid bytes text = do
  raise_if (not (is_valid_name text)) invalid_name
  transact (create_tenant_tx env draw kid bytes text)

pub record ApiKeyInfo : Type 0 where
  pub id : ℕ
  pub key_prefix : Text
  pub created_at : ℕ
  pub revoked_at : Option ℕ

abbrev pub key_info : ApiKey → ApiKeyInfo
key_info k = record {
  id = k.id;
  key_prefix = k.key_prefix;
  created_at = k.created_at;
  revoked_at = k.revoked_at;
}

-- ListAPIKeys.
unfoldable pub list_api_keys : ℕ → Tx (List ApiKeyInfo)
list_api_keys tid = query λ db.
    map key_info (sort_desc (λ k. k.created_at) (select (λ k. k.tenant_id == tid) db.api_keys))

-- UPDATE api_keys SET revoked_at = now() WHERE id = $1 AND tenant_id = $2 AND revoked_at IS NULL.
abbrev pub to_revoke : ℕ → ℕ → ApiKey → Bool
to_revoke tid kid k = k.id == kid && k.tenant_id == tid && is_active k

abbrev pub revoked : ℕ → ApiKey → ApiKey
revoked now k = record k { revoked_at = some now }

-- The rows it changes, and their number.
unfoldable pub revoke : ℕ → ℕ → ℕ → Db → Result ℕ × Db
revoke now tid kid db = (
  ok (count_where (to_revoke tid kid) db.api_keys),
  record db { api_keys = update_where (to_revoke tid kid) (revoked now) db.api_keys },
)

unfoldable pub revoke_tx : Env → ℕ → ℕ → ℕ → Tx ⊤
revoke_tx env now tid kid = do
  affected ← stmt (revoke now tid kid)
  raise_if (affected == 0) no_rows
  Audit.write (some tid) api_key_revoked ((key_id, str (env.uuid_string kid)) ∷ [])

-- RevokeAPIKey.
unfoldable pub revoke_api_key : Env → ℕ → ℕ → ℕ → Tx ⊤
revoke_api_key env now tid kid = transact (revoke_tx env now tid kid)

-- GetName.
unfoldable pub get_name : ℕ → Tx Text
get_name tid = do
  row ← query λ db. find (has_tenant_id tid) db.tenants
  t ← or_raise no_rows row
  pure t.name
