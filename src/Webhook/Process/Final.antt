-- ===== src/Webhook/Process/Final.antt =====
-- What the attempts of ProcessDelivery (payflow-app/internal/webhook/webhook.go) leave of a delivery.
use payflow_payments_ops_pla.Base.{
  ℕ, zero, suc, ◌+◌, ◌<◌, ◌≤◌, ◌≡◌, inl, inr, ◌≢◌, none, some, arith, Option-cases,
}
use native.Mathlib.Nat.{add-zero}
use payflow_payments_ops_pla.Text.{Text}
use payflow_payments_ops_pla.Store.{Delivery, pending, succeeded, dlq}
use payflow_payments_ops_pla.Webhook.{Net}
use payflow_payments_ops_pla.Webhook.Process.{delivered, attempted, failure_of}

-- The row after attempts from round `n` on, `k` more than one of them at most.
unfoldable pub final : Net → ℕ → ℕ → ℕ → Delivery → Delivery
final net now zero n d = elim (failure_of (net.reply n)) [
  | none ↦ delivered now d
  | some message ↦ attempted now (d.attempt_count + 1) message dlq d
]
final net now (suc k) n d =
    let later = λ (message : Text).
      final net now k (n + 1) (attempted now (d.attempt_count + 1) message pending d) in
    elim (failure_of (net.reply n)) [ none ↦ delivered now d | some message ↦ later message ]

-- How many requests that takes.
unfoldable pub tries : Net → ℕ → ℕ → ℕ
tries net zero n = 1
tries net (suc k) n =
    let later = tries net k (n + 1) in
    elim (failure_of (net.reply n)) [ none ↦ 1 | some _ ↦ suc later ]

pub final-all_fail :
    (net : Net) (now : ℕ)
    → ((m : ℕ) → failure_of (net.reply m) ≢ none)
    → (k n : ℕ) (d : Delivery)
    → ((final net now k n d).status ≡ dlq)
      × ((final net now k n d).attempt_count ≡ d.attempt_count + suc k)
      × (tries net k n ≡ suc k)
unfolding final tries
final-all_fail net now bad zero n d = ground (arith, bad n)
final-all_fail net now bad (suc k) n d = elim (Option-cases (failure_of (net.reply n))) [
  | inl good ↦ absurd (bad n good)
  | inr (message, e) ↦
      let later =
        final-all_fail net now bad k (n + 1)
          (attempted now (d.attempt_count + 1) message pending d) in
      ground (arith, e, later)
]

pub final-first :
    (net : Net) (now j k n : ℕ) (d : Delivery)
    → j ≤ k
    → ((i : ℕ) → i < j → failure_of (net.reply (n + i)) ≢ none)
    → failure_of (net.reply (n + j)) ≡ none
    → ((final net now k n d).status ≡ succeeded)
      × ((final net now k n d).attempt_count ≡ d.attempt_count + j)
      × (tries net k n ≡ suc j)
unfolding final tries
final-first net now zero zero n d le bad good =
    let e : failure_of (net.reply n) ≡ none = rw (← add-zero n) good in ground (arith, e)
final-first net now zero (suc k) n d le bad good =
    let e : failure_of (net.reply n) ≡ none = rw (← add-zero n) good in ground (arith, e)
final-first net now (suc j) zero n d le bad good = absurd (omega arith)
final-first net now (suc j) (suc k) n d le bad good =
    elim (Option-cases (failure_of (net.reply n))) [
      | inl now_good ↦ absurd (bad zero (omega arith) (rw add-zero now_good))
      | inr (message, e) ↦
          let shift = λ (i : ℕ). let s : n + suc i ≡ n + 1 + i = omega arith in s in
          let later =
            final-first net now j k (n + 1) (attempted now (d.attempt_count + 1) message pending d)
              (omega arith) (λ i lt. rw (← shift i) (bad (suc i) (omega arith)))
              (rw (← shift j) good) in
          ground (arith, e, later)
    ]
