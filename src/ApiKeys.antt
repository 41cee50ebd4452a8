-- ===== src/ApiKeys.antt =====
-- payflow-app/internal/auth/apikey.go: API keys, and the middleware that finds the tenant of one.
use payflow_payments_ops_pla.Base.{
  ℕ, ◌+◌, ◌-◌, ◌/◌, ◌%◌, Bool, true, false, ◌&&◌, Option, none, some, List, [], ◌∷◌, ◌++◌, find,
  ltb, if◌then◌else◌,
}
use payflow_payments_ops_pla.Text.{Text, text_eq, is_empty, codes, trim_space}
use payflow_payments_ops_pla.Store.{
  Env, ApiKey, api_key_auth_failure, reason, str, Result, ok, err, no_entropy, no_rows, Tx, TxState,
  query, or_raise, transact, ◌>>=◌,
}
use payflow_payments_ops_pla.Audit

-- HashAPIKey, and ParseAPIKeyHash.
unfoldable pub hash_api_key : Env → Text → Text
hash_api_key env raw = env.sha256_hex raw

-- hex.EncodeToString.
abbrev hex_digit : ℕ → ℕ
hex_digit n = if ltb n 10 then b'0' + n else b'a' + n - 10

abbrev hex : List ℕ → Text
hex [] = []
hex (b ∷ bs) = hex_digit (b / 16) ∷ hex_digit (b % 16) ∷ hex bs

-- GenerateAPIKey, over the 32 bytes that crypto/rand yields, or its error.
unfoldable pub generate_api_key : Option (List ℕ) → Result Text
generate_api_key none = err no_entropy
generate_api_key (some bytes) = ok (codes "pf_live_" ++ hex bytes)

abbrev pub is_active : ApiKey → Bool
is_active k = elim k.revoked_at [ none ↦ true | some _ ↦ false ]

-- WHERE ak.key_hash = $1 AND ak.revoked_at IS NULL.
abbrev pub opens : Text → ApiKey → Bool
opens hash k = text_eq k.key_hash hash && is_active k

-- What MiddlewareAPIKey comes to: 401 with one of two bodies, or the next handler with the
-- principal of the key.
pub data Admission : Type 0 where
  missing_api_key invalid_api_key : Admission
  admitted : (tenant_id key_id : ℕ) → Admission

unfoldable pub lookup : Text → Tx ApiKey
lookup hash = do row ← query λ db. find (opens hash) db.api_keys; or_raise no_rows row

-- Any error of the query is answered alike; the error of the audit entry is dropped.
unfoldable pub admit : Result ApiKey × TxState → Result Admission × TxState
admit (ok k, s) = (ok (admitted k.tenant_id k.id), s)
admit (err e, s) = (
  ok invalid_api_key,
  (transact
      (Audit.write none api_key_auth_failure ((reason, str (codes "invalid_or_revoked")) ∷ []))
      s).1,
)

-- MiddlewareAPIKey, from the header's value.
unfoldable pub authenticate : Env → Text → Tx Admission
unfolding lookup admit
authenticate env header s =
    let raw = trim_space header in
    if is_empty raw then (ok missing_api_key, s) else admit (lookup (hash_api_key env raw) s)
