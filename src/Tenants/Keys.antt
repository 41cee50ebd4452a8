-- ===== src/Tenants/Keys.antt =====
-- CreateTenantWithAPIKey and RevokeAPIKey (payflow-app/internal/tenant/tenant.go) against the
-- middleware that admits a key (payflow-app/internal/auth/apikey.go).
use payflow_payments_ops_pla.Base.{
  ℕ, ◌≤◌, ◌≡◌, refl, sym, ◌∙◌, inl, inr, Bool, true, false, Bool-cases, Option, none, some, List,
  [], ◌∷◌, find, any, any-false-find, update_where, count_where, arith,
}
use payflow_payments_ops_pla.Text.{Text, text_eq, text_eq_refl, is_empty, trim_space}
use payflow_payments_ops_pla.Store.{Db, Env, Draw, ApiKey, ok, stmt}
use payflow_payments_ops_pla.Store.Faults.{clean}
use payflow_payments_ops_pla.Store.Atomic.{or_rollback-ok, clean-transact}
use payflow_payments_ops_pla.Audit.{write}
use payflow_payments_ops_pla.ApiKeys.{
  hash_api_key, generate_api_key, opens, admitted, invalid_api_key, authenticate,
}
use payflow_payments_ops_pla.Tenants.{
  is_valid_name, insert_tenant, new_key, insert_key, create_tenant_tx, create_tenant, to_revoke,
  revoked, revoke, revoke_tx, revoke_api_key,
}
use payflow_payments_ops_pla.Tenants.Safety.{create_tenant_tx-FaultSafe, revoke_tx-FaultSafe}

module _ (env : Env) (draw : Draw) (kid : ℕ) (text : Text) (db db' : Db) (tid : ℕ)
    (raw : Text) where
  create_tenant_tx-success :
      (bytes : Option (List ℕ))
      → clean (create_tenant_tx env draw kid bytes text) db ≡ (ok (tid, raw), db')
      → (is_empty raw ≡ false) × (db'.api_keys ≡ new_key env draw kid tid raw ∷ db.api_keys)
  unfolding create_tenant_tx insert_tenant generate_api_key insert_key write stmt
  create_tenant_tx-success none run = absurd (ground arith)
  create_tenant_tx-success (some bytes) run = ground arith

  pub create_tenant-success :
      (bytes : Option (List ℕ))
      → clean (create_tenant env draw kid bytes text) db ≡ (ok (tid, raw), db')
      → clean (create_tenant_tx env draw kid bytes text) db ≡ (ok (tid, raw), db')
  unfolding create_tenant
  create_tenant-success bytes run = elim (Bool-cases (is_valid_name text)) [
    | inl valid ↦
        or_rollback-ok db (clean (create_tenant_tx env draw kid bytes text) db) (tid, raw) db'
          (sym (
              clean-transact (create_tenant_tx env draw kid bytes text) db
                (create_tenant_tx-FaultSafe env draw kid bytes text))
            ∙ ground arith)
    | inr invalid ↦ absurd (ground arith)
  ]

module _ (env : Env) (header : Text) (db : Db) where
  authenticate-finds :
      (k : ApiKey)
      → is_empty (trim_space header) ≡ false
      → find (opens (hash_api_key env (trim_space header))) db.api_keys ≡ some k
      → clean (authenticate env header) db ≡ (ok (admitted k.tenant_id k.id), db)
  unfolding authenticate stmt
  authenticate-finds k given found = rw (given, found) refl

  authenticate-misses :
      is_empty (trim_space header) ≡ false
      → find (opens (hash_api_key env (trim_space header))) db.api_keys ≡ none
      → (clean (authenticate env header) db).0 ≡ ok invalid_api_key
  unfolding authenticate stmt
  authenticate-misses given missing = rw (given, missing) refl

-- Without failures: the raw key that a CreateTenantWithAPIKey returns, in a header with any white
-- space around it, is admitted as the new tenant, with the new key's id.
pub create_tenant-authenticate :
    (env : Env) (draw : Draw) (kid : ℕ) (bytes : Option (List ℕ)) (text : Text) (db db' : Db)
    (tid : ℕ) (raw header : Text)
    → clean (create_tenant env draw kid bytes text) db ≡ (ok (tid, raw), db')
    → trim_space header ≡ raw
    → clean (authenticate env header) db' ≡ (ok (admitted tid kid), db')
create_tenant-authenticate env draw kid bytes text db db' tid raw header run same =
    let inside = create_tenant-success env draw kid text db db' tid raw bytes run in
    let (given, keys) = create_tenant_tx-success env draw kid text db db' tid raw bytes inside in
    authenticate-finds env header db' (new_key env draw kid tid raw) (rw same given)
      (rw (same, keys) (ground (arith, text_eq_refl (hash_api_key env raw))))

abbrev pub has_hash : Text → ApiKey → Bool
has_hash hash k = text_eq k.key_hash hash

no_hash :
    (hash : Text) (now tid kid : ℕ) (ks : List ApiKey)
    → count_where (has_hash hash) ks ≡ 0
    → any (opens hash) (update_where (to_revoke tid kid) (revoked now) ks) ≡ false
no_hash hash now tid kid [] e = refl
no_hash hash now tid kid (k ∷ ks) e = ground (arith, no_hash hash now tid kid ks)

found-counts :
    (p : ApiKey → Bool) (hash : Text) (k : ApiKey) (ks : List ApiKey)
    → find p ks ≡ some k
    → text_eq k.key_hash hash ≡ true
    → 1 ≤ count_where (has_hash hash) ks
found-counts p hash k [] found same = absurd (ground arith)
found-counts p hash k (x ∷ xs) found same = elim (Bool-cases (p x)) [
  | inl hit ↦ let e : x ≡ k = ground arith in ground arith
  | inr miss ↦ omega (arith, found-counts p hash k xs (ground arith) same)
]

-- Revoking the only key with a hash leaves none that opens it.
revoke-closes :
    (hash : Text) (now tid kid : ℕ) (k : ApiKey) (ks : List ApiKey)
    → find (to_revoke tid kid) ks ≡ some k
    → text_eq k.key_hash hash ≡ true
    → count_where (has_hash hash) ks ≤ 1
    → any (opens hash) (update_where (to_revoke tid kid) (revoked now) ks) ≡ false
revoke-closes hash now tid kid k [] found same only = refl
revoke-closes hash now tid kid k (x ∷ xs) found same only =
    elim (Bool-cases (to_revoke tid kid x)) [
      | inl hit ↦
          let e : x ≡ k = ground arith in
          let none_left : count_where (has_hash hash) xs ≡ 0 = ground arith in
          ground (arith, no_hash hash now tid kid xs none_left)
      | inr miss ↦
          let found' : find (to_revoke tid kid) xs ≡ some k = ground arith in
          let counted = found-counts (to_revoke tid kid) hash k xs found' same in
          let free : text_eq x.key_hash hash ≡ false = ground arith in
          let later = revoke-closes hash now tid kid k xs found' same (ground arith) in
          ground (arith, later)
    ]

revoke_tx-success :
    (env : Env) (now tid kid : ℕ) (db db' : Db)
    → clean (revoke_tx env now tid kid) db ≡ (ok tt, db')
    → db'.api_keys ≡ update_where (to_revoke tid kid) (revoked now) db.api_keys
unfolding revoke_tx revoke write stmt
revoke_tx-success env now tid kid db db' run = ground arith

revoke-success :
    (env : Env) (now tid kid : ℕ) (db db' : Db)
    → clean (revoke_api_key env now tid kid) db ≡ (ok tt, db')
    → db'.api_keys ≡ update_where (to_revoke tid kid) (revoked now) db.api_keys
unfolding revoke_api_key
revoke-success env now tid kid db db' run = revoke_tx-success env now tid kid db db' (
    or_rollback-ok db (clean (revoke_tx env now tid kid) db) tt db' (
      sym (clean-transact (revoke_tx env now tid kid) db (revoke_tx-FaultSafe env now tid kid))
      ∙ run))

-- After a success of RevokeAPIKey a header with the revoked key is refused, where no other key has
-- the same hash, as the table's UNIQUE constraint has it.
pub revoke_api_key-authenticate :
    (env : Env) (now tid kid : ℕ) (header : Text) (k : ApiKey) (db db' : Db)
    → find (to_revoke tid kid) db.api_keys ≡ some k
    → text_eq k.key_hash (hash_api_key env (trim_space header)) ≡ true
    → count_where (has_hash (hash_api_key env (trim_space header))) db.api_keys ≤ 1
    → is_empty (trim_space header) ≡ false
    → clean (revoke_api_key env now tid kid) db ≡ (ok tt, db')
    → (clean (authenticate env header) db').0 ≡ ok invalid_api_key
revoke_api_key-authenticate env now tid kid header k db db' found same only given run =
    let hash = hash_api_key env (trim_space header) in
    let closed = revoke-closes hash now tid kid k db.api_keys found same only in
    authenticate-misses env header db' given (
      any-false-find (opens hash) db'.api_keys
        (rw (revoke-success env now tid kid db db' run) closed))
