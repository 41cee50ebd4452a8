-- ===== src/Tests/Server.antt =====
-- A concrete server, with its libraries.
use payflow_payments_ops_pla.Base.{
  ℕ, ◌≡◌, refl, zero, suc, true, Option, none, some, [], ◌∷◌, ◌++◌, length, ltb, pos, if◌then◌else◌,
  arith,
}
use payflow_payments_ops_pla.Text.{Text, codes, text_eq}
use payflow_payments_ops_pla.Store.{Db, Tenant, ApiKey}
use payflow_payments_ops_pla.Queue.{World, webhook_job}
use payflow_payments_ops_pla.Queue
use payflow_payments_ops_pla.Auth.{MapClaims, Jwt}
use payflow_payments_ops_pla.Auth.Tokens.{JwtLaws}
use payflow_payments_ops_pla.Http.{HttpRequest, patch, Codec, Bcrypt, Server, fail}
use payflow_payments_ops_pla.Webhook.Process.Rounds.{world}
use payflow_payments_ops_pla.System.{empty_db}
use payflow_payments_ops_pla.Tests.Data.{demo_env, draw}

abbrev pub address : Text
address = codes "ops@shop.example"

abbrev pub password : Text
password = codes "correct horse"

abbrev pub demo_codec : Codec
demo_codec = record {
  decode_name = λ t. some t;
  decode_user = λ t. some (address, password);
  decode_login = λ t. some (7, address, password);
  decode_webhook = λ t. some (t, codes "secret");
  decode_payment = λ t. some (pos 500, codes "usd");
  decode_refund = λ t. some (pos 300);
  rfc3339 = λ n. n ∷ [];
  rfc3339_nano = λ n. n ∷ [];
}

abbrev pub demo_bcrypt : Bcrypt
demo_bcrypt = record { generate = λ t. some t; matches = text_eq }

abbrev pub split : ℕ → Text → Text × Text
split zero t = ([], t)
split (suc n) [] = ([], [])
split (suc n) (c ∷ t) = let (a, b) = split n t in (c ∷ a, b)

-- A token is the length of `sub`, the expiry, `sub` and `tid`.
abbrev pub read_token : ℕ → Text → Option MapClaims
read_token now [] = none
read_token now (_ ∷ []) = none
read_token now (n ∷ exp ∷ rest) =
    if ltb now exp
    then some (record { sub = some (split n rest).0; tid = some (split n rest).1 })
    else none

abbrev pub demo_jwt : Jwt
demo_jwt = record {
  signed_string =
      λ secret claims. some (length claims.sub ∷ claims.exp ∷ (claims.sub ++ claims.tid));
  parse = λ now key token. elim (key true) [ none ↦ none | some _ ↦ read_token now token ];
}

split-append : (a b : Text) → split (length a) (a ++ b) ≡ (a, b)
split-append [] b = refl
split-append (c ∷ a) b = ground (arith, split-append a b)

pub demo_jwt-JwtLaws : JwtLaws demo_jwt
demo_jwt-JwtLaws = record {
  parse-signed_string = λ secret token claims now key signed known live.
      let shape : length claims.sub ∷ claims.exp ∷ (claims.sub ++ claims.tid) ≡ token =
        ground arith in
      rw (known, ← shape) (ground (arith, split-append claims.sub claims.tid));
}

abbrev pub demo_server : Server
demo_server = record {
  env = demo_env;
  codec = demo_codec;
  bcrypt = demo_bcrypt;
  jwt = demo_jwt;
  jwt_secret = codes "jwt-secret";
  cors_allowed_origins = [];
  publish = λ did. Queue.publish (webhook_job did);
  draw = draw 70;
  new_key_id = 71;
  random = some [];
  unix_now = 1000;
  new_request_id = codes "req-1";
  unrouted = λ r. fail 404 (codes "not_found");
}

abbrev pub shop : Tenant
shop = record { id = 7; name = codes "shop"; webhook_url = none; webhook_signing_secret = none }

abbrev pub shop_key : ApiKey
shop_key = record {
  id = 3;
  tenant_id = 7;
  key_hash = codes "key";
  key_prefix = codes "key";
  created_at = 1;
  revoked_at = none;
}

abbrev pub rival : Tenant
rival = record { id = 9; name = codes "rival"; webhook_url = none; webhook_signing_secret = none }

abbrev pub shop_db : Db
shop_db = record empty_db { tenants = shop ∷ rival ∷ []; api_keys = shop_key ∷ [] }

abbrev pub shop_world : World
shop_world = world shop_db [] [] []

-- PATCH /v1/tenants/me/webhook with the key of the shop.
abbrev pub patch_request : HttpRequest
patch_request = record {
  method = patch;
  path = codes "v1" ∷ codes "tenants" ∷ codes "me" ∷ codes "webhook" ∷ [];
  api_key_header = codes "key";
  authorization = [];
  idempotency_key = [];
  origin = [];
  status_query = [];
  body = some (codes "https://shop.example/hook");
}
