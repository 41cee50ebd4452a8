-- ===== src/Http.antt =====
-- payflow-app/internal/httpapi: the HTTP interface of cmd/api. A handler runs over the world of the
-- services; it ends at its first reply.
pub mod Accounts
pub mod Payments
pub mod Deliveries
pub mod Middleware
pub mod Router
pub mod Keeps
pub mod Access
pub mod Anonymous
pub mod Login
pub mod Retry
pub mod Isolation
pub mod Reads
use payflow_payments_ops_pla.Base.{
  ℕ, Bool, true, false, Option, none, some, List, [], ◌∷◌, ⊤, ℤ, if◌then◌else◌,
}
use payflow_payments_ops_pla.Text.{Text, codes}
use payflow_payments_ops_pla.Store.{Env, Draw, Object, Error, Result, ok, err, Tx, TxState}
use payflow_payments_ops_pla.Queue.{World, W}
use payflow_payments_ops_pla.Auth.{Context, Jwt}

-- The request, as the handlers read it. A header that is missing is the empty text; `body` is `none`
-- where reading it fails.
pub data Method : Type 0 where
  get post patch delete options : Method
  other_method : Text → Method

pub record HttpRequest : Type 0 where
  pub method : Method
  pub path : List Text
  pub api_key_header : Text
  pub authorization : Text
  pub idempotency_key : Text
  pub origin : Text
  pub status_query : Text
  pub body : Option Text

-- A JSON value in a reply; `payload` is a stored JSONB object.
pub data Cell : Type 0 where
  number : ℤ → Cell
  string : Text → Cell
  boolean : Bool → Cell
  payload : Object → Cell

abbrev pub Row : Type 0
Row = List (Text × Cell)

-- `failure` is what http.Error writes for {"error": …}; `object` a JSON object, with at most one
-- field that is an array of objects.
pub data Body : Type 0 where
  empty_body : Body
  plain failure : Text → Body
  object : Row → Option (Text × List Row) → Body

-- `code` is the first that was passed to WriteHeader.
pub record Response : Type 0 where
  pub code : Option ℕ
  pub headers : List (Text × Text)
  pub body : Body

-- statusRecorder.status: 200 if WriteHeader was not called.
abbrev pub status_of : Response → ℕ
status_of r = elim r.code [ none ↦ 200 | some code ↦ code ]

abbrev pub fail : ℕ → Text → Response
fail code name = record { code = some code; headers = []; body = failure name }

-- json.NewEncoder(w).Encode, with no call of WriteHeader, or with one.
abbrev pub json : Row → Response
json row = record { code = none; headers = []; body = object row none }

abbrev pub json_list : Row → Text → List Row → Response
json_list row name rows = record {
  code = none;
  headers = [];
  body = object row (some (name, rows));
}

abbrev pub json_with : ℕ → Row → Response
json_with code row = record { code = some code; headers = []; body = object row none }

abbrev pub created_code : Bool → ℕ
created_code created = if created then 201 else 200

-- encoding/json into the body types of the handlers, and time.Time.Format.
pub record Codec : Type 0 where
  pub decode_name : Text → Option Text
  pub decode_user : Text → Option (Text × Text)
  pub decode_login : Text → Option (ℕ × Text × Text)
  pub decode_webhook : Text → Option (Text × Text)
  pub decode_payment : Text → Option (ℤ × Text)
  pub decode_refund : Text → Option ℤ
  pub rfc3339 : ℕ → Text
  pub rfc3339_nano : ℕ → Text

-- golang.org/x/crypto/bcrypt: GenerateFromPassword, and whether CompareHashAndPassword returns nil.
pub record Bcrypt : Type 0 where
  pub generate : Text → Option Text
  pub matches : Text → Text → Bool

-- What the handlers of one server share, and what the world supplies for one request: ids and the
-- time for new rows, an id for a new key, the bytes of crypto/rand, the clock in seconds.
pub record Server : Type 0 where
  pub env : Env
  pub codec : Codec
  pub bcrypt : Bcrypt
  pub jwt : Jwt
  pub jwt_secret : Text
  pub cors_allowed_origins : List Text
  pub publish : ℕ → W ⊤
  pub draw : Draw
  pub new_key_id : ℕ
  pub random : Option (List ℕ)
  pub unix_now : ℕ
  pub new_request_id : Text
  -- What chi answers where no route fits, and promhttp.Handler under /metrics.
  pub unrouted : HttpRequest → Response

pub data Reply (A : Type 0) : Type 0 where
  answered : Response → Reply A
  going : A → Reply A

abbrev pub Api : Type 0 → Type 0
Api A = World → Reply A × World

module _ {A : Type 0} where
  abbrev pub pure : A → Api A
  pure a w = (going a, w)

  -- `http.Error(…); return`.
  abbrev pub reply : Response → Api A
  reply r w = (answered r, w)

  abbrev pub or_reply : Response → Option A → Api A
  or_reply r none = reply r
  or_reply r (some a) = pure a

  abbrev pub reply_of : (Error → Response) → Result A → Reply A
  reply_of on_error (ok a) = going a
  reply_of on_error (err e) = answered (on_error e)

  -- A call of a service or of the database, and the reply for each of its errors.
  abbrev pub call : (Error → Response) → Tx A → Api A
  call on_error m w = let (r, s) = m w.store in (reply_of on_error r, record w { store = s })

  -- `_ = …`.
  abbrev pub drop_error : Tx A → Api ⊤
  drop_error m w = (going tt, record w { store = (m w.store).1 })

abbrev pub and_then : {A B : Type 0} → Reply A × World → (A → Api B) → Reply B × World
and_then (going a, w) f = f a w
and_then (answered r, w) f = (answered r, w)

infixl 5 ◌>>=◌ ◌>>◌
abbrev pub ◌>>=◌ : {A B : Type 0} → Api A → (A → Api B) → Api B
◌>>=◌ m f w = and_then (m w) f

abbrev pub ◌>>◌ : {A B : Type 0} → Api A → Api B → Api B
m >> k = m >>= λ _. k

abbrev pub reply_if : Bool → Response → Api ⊤
reply_if true r = reply r
reply_if false r = pure tt

-- A call of the publisher, with one reply for all its errors.
abbrev pub call_publisher : Response → W ⊤ → Api ⊤
call_publisher r m w = let (out, w') = m w in (reply_of (λ e. r) out, w')

-- A whole handler.
abbrev pub reply_in : Reply Response → Response
reply_in (answered r) = r
reply_in (going r) = r

abbrev pub run : Api Response → World → Response × World
run m w = let (out, w') = m w in (reply_in out, w')

-- requireTenantID.
abbrev pub require_tenant_id : Context → Api ℕ
require_tenant_id ctx = or_reply (fail 401 (codes "unauthorized")) ctx.tenant_id
