-- ===== src/Refund/Idempotency.antt =====
-- Create of payflow-app/internal/refund/refund.go, called again under one idempotency key.
use payflow_payments_ops_pla.Base.{
  ℕ, ◌+◌, ◌<◌, ◌≤◌, ◌^◌, ◌≡◌, refl, sym, ◌∙◌, inl, inr, Option-cases, ℤ, pos, pos_part, Bool, true,
  false, some, find, find-some-any, All_find, arith,
}
use payflow_payments_ops_pla.Text.{Text, text_eq, text_eq_refl, trim_space, to_upper}
use payflow_payments_ops_pla.Store.{
  Db, Env, Draw, Payment, Refund, ok, err, refund_amount_exceeded, is_succeeded, stmt,
}
use payflow_payments_ops_pla.Store.Faults.{clean, bind-clean}
use payflow_payments_ops_pla.Payment.{has_id}
use payflow_payments_ops_pla.Refund.{
  same_key, reserved, asked, new_refund, request_fingerprint, insert_refund, replay, insert_tx,
  check_tx, create_tx, create,
}
use payflow_payments_ops_pla.Refund.Safety.{check_tx-FaultSafe}
use payflow_payments_ops_pla.Refund.Runs.{
  check_tx-passes, check_tx-fits, check_tx-exceeds, insert_tx-fresh, insert_tx-found,
  create_tx-success, create-success, clean-create, insert_of, replayed,
}
use payflow_payments_ops_pla.Refund.Bound.{RefundsCovered, clean-create_tx-Covered}

-- What a success of Create leaves for a second call: the payment and its checks, and the row.
record Taken (env : Env) (tid pid : ℕ) (key : Text) (amount : ℤ) (db : Db) (r : Refund)
    : Type 0 where
  p : Payment
  found : find (has_id pid) db.payments ≡ some p
  owner : p.tenant_id ≡ tid
  settled : is_succeeded p.status ≡ true
  shape : asked amount p ≡ pos (pos_part (asked amount p))
  positive : 0 < pos_part (asked amount p)
  within : pos_part (asked amount p) ≤ p.amount_cents
  small : p.amount_cents < 2 ^ 62
  covered : reserved pid db ≤ p.amount_cents
  amount_of : r.amount_cents ≡ pos_part (asked amount p)
  q : Refund
  row : find (same_key tid key) db.refunds ≡ some q
  hash : text_eq q.request_hash (request_fingerprint env pid (asked amount p)) ≡ true
  again :
      replayed tid pid key (asked amount p) (to_upper env.upper_table (trim_space p.currency)) q ≡ r

create-Taken :
    (env : Env) (draw : Draw) (tid pid : ℕ) (key : Text) (amount : ℤ) (db db' : Db) (r : Refund)
    (created : Bool)
    → RefundsCovered db
    → clean (create_tx env draw tid pid key amount) db ≡ (ok (r, created), db')
    → Taken env tid pid key amount db' r
create-Taken env draw tid pid key amount db db' r created before run =
    let after =
      clean-create_tx-Covered env draw tid pid key amount db db' (r, created) run before in
    let (p, found, checked, inside) =
      create_tx-success env draw tid pid key amount db (r, created) db' run in
    let check = check_tx-passes tid pid amount p db db tt checked in
    let amt = asked amount p in
    let cur = to_upper env.upper_table (trim_space p.currency) in
    elim (Option-cases (find (same_key tid key) db.refunds)) [
      | inl missing ↦
          let fresh =
            insert_tx-fresh env draw tid pid key amt cur db r created db' missing inside in
          let found' : find (has_id pid) db'.payments ≡ some p = rw fresh.3 found in
          record {
            p = p;
            found = found';
            owner = check.1;
            settled = check.2;
            shape = check.3;
            positive = check.4;
            within = check.5;
            small = All_find _ (has_id pid) db.payments p before.bounded found;
            covered = after.covered pid p found';
            amount_of = ground (arith, fresh.1);
            q = new_refund env draw tid pid key amt cur;
            row = ground (arith, fresh.4, text_eq_refl key);
            hash = text_eq_refl (request_fingerprint env pid amt);
            again = sym fresh.1;
          }
      | inr (q, there) ↦
          let same = insert_tx-found env draw tid pid key amt cur db q r created db' there inside in
          let found' : find (has_id pid) db'.payments ≡ some p = rw same.2 found in
          record {
            p = p;
            found = found';
            owner = check.1;
            settled = check.2;
            shape = check.3;
            positive = check.4;
            within = check.5;
            small = All_find _ (has_id pid) db.payments p before.bounded found;
            covered = after.covered pid p found';
            amount_of = ground (arith, same.1);
            q = q;
            row = rw same.2 there;
            hash = same.3;
            again = sym same.1;
          }
    ]

module _ (env : Env) (later : Draw) (tid pid : ℕ) (key : Text) (amount : ℤ) (db : Db) (r : Refund)
    (t : Taken env tid pid key amount db r) where
  found_row : clean (insert_of env later tid pid key amount db t.p) db ≡ (ok (r, false), db)
  unfolding insert_tx insert_refund replay stmt
  found_row =
      ground (arith, t.row, t.hash, t.again, find-some-any (same_key tid key) db.refunds t.q)

  create_tx-again :
      reserved pid db + r.amount_cents ≤ t.p.amount_cents
      → clean (create_tx env later tid pid key amount) db ≡ (ok (r, false), db)
  unfolding create_tx stmt
  create_tx-again fits =
      let fits' : reserved pid db + pos_part (asked amount t.p) ≤ t.p.amount_cents =
        rw (← t.amount_of) fits in
      let checked =
        check_tx-fits tid pid amount t.p db t.owner t.settled t.shape t.positive t.within t.small
          t.covered fits' in
      rw t.found (
        bind-clean (check_tx tid pid amount t.p)
          (λ _. insert_of env later tid pid key amount db t.p) db tt db
          (check_tx-FaultSafe tid pid amount t.p) checked
        ∙ found_row)

  create_tx-refused :
      t.p.amount_cents < reserved pid db + r.amount_cents
      → clean (create_tx env later tid pid key amount) db ≡ (err refund_amount_exceeded, db)
  unfolding create_tx stmt
  create_tx-refused over =
      let over' : t.p.amount_cents < reserved pid db + pos_part (asked amount t.p) =
        rw (← t.amount_of) over in
      let checked =
        check_tx-exceeds tid pid amount t.p db t.owner t.settled t.shape t.positive t.within t.small
          t.covered over' in
      rw t.found (ground (arith, checked))

-- Without failures, and in tables whose payments are below 2 ^ 62 cents and whose refunds are covered
-- by their payments: after a Create of a refund that succeeded, a second Create with the same key, payment and amount, where the payment
-- can bear the amount once more, returns the refund of the first, not created, and changes nothing.
pub repeat_refund :
    (env : Env) (draw later : Draw) (tid pid : ℕ) (key : Text) (amount : ℤ) (db db' : Db)
    (r : Refund) (created : Bool) (p : Payment)
    → RefundsCovered db
    → clean (create env draw tid pid key amount) db ≡ (ok (r, created), db')
    → find (has_id pid) db'.payments ≡ some p
    → reserved pid db' + r.amount_cents ≤ p.amount_cents
    → clean (create env later tid pid key amount) db' ≡ (ok (r, false), db')
repeat_refund env draw later tid pid key amount db db' r created p before run found fits =
    let (valid, inside) = create-success env draw tid pid key amount db (r, created) db' run in
    let t = create-Taken env draw tid pid key amount db db' r created before inside in
    let same : t.p ≡ p = ground (arith, t.found) in
    let again = create_tx-again env later tid pid key amount db' r t (rw same fits) in
    clean-create env later tid pid key amount db' valid ∙ rw again refl

-- Without failures, and in tables whose payments are below 2 ^ 62 cents and whose refunds are covered
-- by their payments: after a Create of a refund that succeeded, a second Create with the same key, payment and amount, where the payment
-- cannot bear the amount once more, is refused as exceeding the balance, although it repeats a
-- request that was taken, and changes nothing.
pub repeat_refund_refused :
    (env : Env) (draw later : Draw) (tid pid : ℕ) (key : Text) (amount : ℤ) (db db' : Db)
    (r : Refund) (created : Bool) (p : Payment)
    → RefundsCovered db
    → clean (create env draw tid pid key amount) db ≡ (ok (r, created), db')
    → find (has_id pid) db'.payments ≡ some p
    → p.amount_cents < reserved pid db' + r.amount_cents
    → clean (create env later tid pid key amount) db' ≡ (err refund_amount_exceeded, db')
repeat_refund_refused env draw later tid pid key amount db db' r created p before run found over =
    let (valid, inside) = create-success env draw tid pid key amount db (r, created) db' run in
    let t = create-Taken env draw tid pid key amount db db' r created before inside in
    let same : t.p ≡ p = ground (arith, t.found) in
    let again = create_tx-refused env later tid pid key amount db' r t (rw same over) in
    clean-create env later tid pid key amount db' valid ∙ rw again refl
