-- ===== src/System/Account.antt =====
-- What the payments API promises of one payment, apart from how it is stored: an account that is
-- opened, settled once, and refunded up to its amount.
use payflow_payments_ops_pla.Base.{
  ℕ, ◌+◌, ◌<◌, ◌≤◌, ◌≡◌, refl, sym, ap, subst, inl, inr, Bool, true, false, Bool-cases, Option,
  Option-cases, none, some, List, ◌∷◌, find, any, update_where, any-false-find, find-update,
  sum_where-update, ◌==◌, arith,
}
use payflow_payments_ops_pla.Store.{Db, Payment, Refund, is_succeeded, is_reserving}
use payflow_payments_ops_pla.Payment.{has_id, to_settle, settled}
use payflow_payments_ops_pla.Refund.{reserves, to_refund, refunded}
use payflow_payments_ops_pla.Refund.Bound.{total}

-- `reserved` is the sum of the refunds that are pending or succeeded.
pub record Account : Type 0 where
  pub amount : ℕ
  pub is_settled : Bool
  pub reserved : ℕ

pub data AccountStep (before after : Option Account) : Type 0 where
  open_account :
      (amount : ℕ)
      → 0 < amount
      → before ≡ none
      → after ≡ some (record { amount = amount; is_settled = false; reserved = 0 })
      → AccountStep before after
  settle :
      (x : Account)
      → x.is_settled ≡ false
      → before ≡ some x
      → after ≡ some (record x { is_settled = true })
      → AccountStep before after
  reserve :
      (x : Account) (n : ℕ)
      → x.is_settled ≡ true
      → 0 < n
      → x.reserved + n ≤ x.amount
      → before ≡ some x
      → after ≡ some (record x { reserved = x.reserved + n })
      → AccountStep before after

pub data Evolves (a : Option Account) : Option Account → Type 0 where
  stays : Evolves a a
  after : {b c : Option Account} → Evolves a b → AccountStep b c → Evolves a c

-- The account that the tables hold for a payment.
abbrev account_of : Option Payment → ℕ → Option Account
account_of none n = none
account_of (some p) n =
    some (record { amount = p.amount_cents; is_settled = is_succeeded p.status; reserved = n })

abbrev pub account_in : ℕ → List Payment → List Refund → Option Account
account_in pid ps rs = account_of (find (has_id pid) ps) (total pid rs)

abbrev pub account : ℕ → Db → Option Account
account pid db = account_in pid db.payments db.refunds

pub Evolves-same : {a b c : Option Account} → Evolves a b → c ≡ b → Evolves a c
Evolves-same {a} h e = subst (Evolves a) (sym e) h

module _ (pid : ℕ) (a : Option Account) (ps : List Payment) (rs : List Refund)
    (h : Evolves a (account_in pid ps rs)) where
  pub settle-Evolves :
      (now k : ℕ) → Evolves a (account_in pid (update_where (to_settle k) (settled now) ps) rs)
  settle-Evolves now k =
      let updated = find-update (has_id pid) (to_settle k) (settled now) ps (λ p. refl) in
      elim (Option-cases (find (has_id pid) ps)) [
        | inl missing ↦ Evolves-same h (ground (arith, updated, missing))
        | inr (p, found) ↦ elim (Bool-cases (to_settle k p)) [
          | inl hit ↦
              let x : Account = record {
                amount = p.amount_cents;
                is_settled = false;
                reserved = total pid rs;
              } in
              let open_still : is_succeeded p.status ≡ false = ground arith in
              after h (
                settle x refl (ground (arith, found, open_still))
                  (ground (arith, updated, found, hit)))
          | inr miss ↦ Evolves-same h (ground (arith, updated, found, miss))
        ]
      ]

  pub payment-Evolves :
      (p : Payment)
      → any (has_id p.id) ps ≡ false
      → 0 < p.amount_cents
      → is_succeeded p.status ≡ false
      → (any (has_id pid) ps ≡ false → total pid rs ≡ 0)
      → Evolves a (account_in pid (p ∷ ps) rs)
  payment-Evolves p fresh positive unsettled empty = elim (Bool-cases (p.id == pid)) [
    | inl hit ↦
        let here : p.id ≡ pid = ground arith in
        let free = subst (λ x. any (has_id x) ps ≡ false) here fresh in
        let missing = any-false-find (has_id pid) ps free in
        after h (
          open_account p.amount_cents positive (ground (arith, missing))
            (ground (arith, hit, unsettled, empty free)))
    | inr miss ↦ Evolves-same h (ground (arith, miss))
  ]

  pub refund-Evolves :
      (r : Refund) (p : Payment)
      → find (has_id r.payment_id) ps ≡ some p
      → is_succeeded p.status ≡ true
      → is_reserving r.status ≡ true
      → 0 < r.amount_cents
      → total r.payment_id rs + r.amount_cents ≤ p.amount_cents
      → Evolves a (account_in pid ps (r ∷ rs))
  refund-Evolves r p found paid live positive fits = elim (Bool-cases (r.payment_id == pid)) [
    | inl hit ↦
        let here : r.payment_id ≡ pid = ground arith in
        let found_pid = subst (λ x. find (has_id x) ps ≡ some p) here found in
        let fits_pid = subst (λ x. total x rs + r.amount_cents ≤ p.amount_cents) here fits in
        let x : Account = record {
          amount = p.amount_cents;
          is_settled = true;
          reserved = total pid rs;
        } in
        after h (
          reserve x r.amount_cents refl positive fits_pid (ground (arith, found_pid, paid))
            (ground (arith, found_pid, paid, hit, live)))
    | inr miss ↦ Evolves-same h (ground (arith, miss))
  ]

  pub settle_refund-Evolves :
      (now k : ℕ) → Evolves a (account_in pid ps (update_where (to_refund k) (refunded now) rs))
  settle_refund-Evolves now k = Evolves-same h (
      ap (account_of (find (has_id pid) ps)) (
        sum_where-update (reserves pid) (to_refund k) (λ r. r.amount_cents) (refunded now) rs
          (λ r hit. ground arith) (λ r. refl)))
