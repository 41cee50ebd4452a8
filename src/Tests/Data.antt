-- ===== src/Tests/Data.antt =====
-- A concrete environment, and tables reached by running the operations.
use payflow_payments_ops_pla.Base.{ℕ, Option, none, some, [], ◌∷◌, ◌++◌, pos, negsuc, true, false}
use payflow_payments_ops_pla.Text.{Text, codes}
use payflow_payments_ops_pla.Store.{Db, Env, Draw, Payment, Refund, Object, Value, num, str, flag}
use payflow_payments_ops_pla.Store.Faults.{clean, at}
use payflow_payments_ops_pla.Payment
use payflow_payments_ops_pla.Refund
use payflow_payments_ops_pla.System.{empty_db}

abbrev pub value_text : Value → Text
value_text (num (pos n)) = n ∷ []
value_text (num (negsuc n)) = 0 ∷ n ∷ []
value_text (str t) = t
value_text (flag true) = 1 ∷ []
value_text (flag false) = 0 ∷ []

abbrev pub object_text : Object → Text
object_text [] = []
object_text ((f, v) ∷ rest) = value_text v ++ (0 ∷ object_text rest)

abbrev pub single : Text → Option ℕ
single [] = none
single (n ∷ []) = some n
single (_ ∷ _ ∷ _) = none

abbrev pub demo_env : Env
demo_env = record {
  upper_table = λ c. c;
  lower_table = λ c. c;
  sha256_hex = λ t. t;
  json_marshal = object_text;
  jsonb_text = object_text;
  uuid_string = λ n. n ∷ [];
  uuid_parse = single;
}

abbrev pub draw : ℕ → Draw
draw n = record { row_id = n; outbox_id = n; now = n }

abbrev pub key : Text
key = codes "order-1"

abbrev pub first_db : Db
first_db = (clean (Payment.create demo_env (draw 1) 7 key (pos 500) (codes " usd")) empty_db).1

abbrev pub first_payment : Payment
first_payment = Payment.new_payment demo_env (draw 1) 7 key (pos 500) (codes "USD")

abbrev pub settled_db : Db
settled_db = (Payment.settle_mock 5 1 (at first_db [])).1.db

abbrev pub settled_payment : Payment
settled_payment = Payment.settled 5 first_payment

abbrev pub refunded_db : Db
refunded_db =
    (Refund.create demo_env (draw 2) 7 1 (codes "refund-1") (pos 300) (at settled_db [])).1.db

abbrev pub first_refund : Refund
first_refund = Refund.new_refund demo_env (draw 2) 7 1 (codes "refund-1") (pos 300) (codes "USD")
