-- ===== src/System/Waiting/Stranded.antt =====
-- What waits to be settled, and no row of the outbox asks for it.
use payflow_payments_ops_pla.Base.{
  ◌≡◌, sym, subst, inl, inr, Bool, false, not, ◌&&◌, Bool-cases, some, List, find, find_sound, any,
  find-none-any, arith,
}
use payflow_payments_ops_pla.Store.{Env, Payment, Refund, OutboxRow, is_pending}
use payflow_payments_ops_pla.Payment.{has_id}
use payflow_payments_ops_pla.Refund.{has_refund_id}
use payflow_payments_ops_pla.Worker.Asks.{asks_payment, asks_refund}
use payflow_payments_ops_pla.System.Waiting.{Complete}

-- A payment that is pending although no open row asks for it; and a refund.
abbrev pub is_stranded_payment : Env → List OutboxRow → Payment → Bool
is_stranded_payment env rows p = is_pending p.status && not (any (asks_payment env p.id) rows)

abbrev pub is_stranded_refund : Env → List OutboxRow → Refund → Bool
is_stranded_refund env rows r = is_pending r.status && not (any (asks_refund env r.id) rows)

pub none_stranded :
    (env : Env) (ps : List Payment) (rs : List Refund) (rows : List OutboxRow)
    → Complete env ps rs rows
    → (any (is_stranded_payment env rows) ps ≡ false)
      × (any (is_stranded_refund env rows) rs ≡ false)
none_stranded env ps rs rows complete = (
  find-none-any (λ p. p.id) (is_stranded_payment env rows) ps complete.payment_ids
      λ pid p found. elim (Bool-cases (is_pending p.status)) [
        | inl waiting ↦
            let same : p.id ≡ pid = ground (arith, find_sound (has_id pid) ps p found) in
            let asked =
              complete.payments p.id p (subst (λ i. find (has_id i) ps ≡ some p) (sym same) found)
                waiting in
            ground arith
        | inr over ↦ ground arith
      ],
  find-none-any (λ r. r.id) (is_stranded_refund env rows) rs complete.refund_ids
      λ rid r found. elim (Bool-cases (is_pending r.status)) [
        | inl waiting ↦
            let same : r.id ≡ rid = ground (arith, find_sound (has_refund_id rid) rs r found) in
            let asked =
              complete.refunds r.id r
                (subst (λ i. find (has_refund_id i) rs ≡ some r) (sym same) found) waiting in
            ground arith
        | inr over ↦ ground arith
      ],
)
