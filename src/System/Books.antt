-- ===== src/System/Books.antt =====
-- The ledger against the payments: what each payment has entered
-- (payflow-app/internal/payment/payment.go, internal/ledger/ledger.go).
pub mod Histories
use payflow_payments_ops_pla.Base.{
  ℕ, ◌≡◌, refl, sym, ap, ◌∙◌, subst, subst₂, inl, inr, Bool, true, false, not, Bool-cases,
  Option-cases, none, some, List, [], ◌∷◌, find, find_sound, find-some-any, any, any-update,
  any-false-find, update_where, find-update, All, All-map, ◌==◌, ◌&&◌, ◌||◌, if◌then◌else◌, arith,
}
use payflow_payments_ops_pla.Text.{Text, text_eq, text_eq_refl}
use payflow_payments_ops_pla.Store.{Db, Payment, LedgerEvent, is_pending, is_succeeded}
use payflow_payments_ops_pla.Payment.{has_id, to_settle, settled}
use payflow_payments_ops_pla.Ledger.{same_entry, accepted_key, settled_key}
use payflow_payments_ops_pla.Ledger.Appended.{Appended}

-- Every entry is of a payment; every payment is accepted in the ledger, and its settlement is entered
-- where it succeeded, and only there.
pub record Booked (ps : List Payment) (es : List LedgerEvent) : Type 0 where
  pub listed : All (λ e. any (has_id e.payment_id) ps ≡ true) es
  pub accepted :
      (pid : ℕ) (p : Payment)
      → find (has_id pid) ps ≡ some p
      → any (same_entry pid accepted_key) es ≡ true
  pub settlement :
      (pid : ℕ) (p : Payment)
      → find (has_id pid) ps ≡ some p
      → any (same_entry pid settled_key) es ≡ is_succeeded p.status
  pub two_states :
      (pid : ℕ) (p : Payment)
      → find (has_id pid) ps ≡ some p
      → is_pending p.status ≡ not (is_succeeded p.status)

-- The row from which a settlement makes the one that is found.
origin :
    (ps : List Payment) (now pid k : ℕ) (q : Payment)
    → find (has_id k) (update_where (to_settle pid) (settled now) ps) ≡ some q
    → (was : Payment) × (find (has_id k) ps ≡ some was)
      × (was.id ≡ k)
      × (q ≡ (if to_settle pid was then settled now was else was))
origin ps now pid k q found =
    let updated = find-update (has_id k) (to_settle pid) (settled now) ps (λ x. refl) in
    elim (Option-cases (find (has_id k) ps)) [
      | inl missing ↦ absurd (ground (arith, updated))
      | inr (was, there) ↦
          (was, there, ground (arith, find_sound (has_id k) ps was there), ground (arith, updated))
    ]

-- A payment that is not there has no entries.
unlisted :
    (ps : List Payment) (pid : ℕ) (key : Text) (es : List LedgerEvent)
    → any (has_id pid) ps ≡ false
    → All (λ e. any (has_id e.payment_id) ps ≡ true) es
    → any (same_entry pid key) es ≡ false
unlisted ps pid key [] fresh listed = refl
unlisted ps pid key (e ∷ es) fresh (here, listed) =
    let rest = unlisted ps pid key es fresh listed in
    elim (Bool-cases (e.payment_id == pid)) [
      | inl same ↦
          let at_pid : e.payment_id ≡ pid = ground arith in
          let there = subst (λ i. any (has_id i) ps ≡ true) at_pid here in absurd (ground arith)
      | inr differ ↦ ground (arith, rest)
    ]

module _ (ps : List Payment) (es es' : List LedgerEvent) (before : Booked ps es) where
  pub payment-Booked :
      (p : Payment)
      → any (has_id p.id) ps ≡ false
      → is_succeeded p.status ≡ false
      → is_pending p.status ≡ true
      → Appended p.id accepted_key es es'
      → Booked (p ∷ ps) es'
  payment-Booked p fresh unpaid waiting entry = record {
    listed =
        entry.listed (λ i. any (has_id i) (p ∷ ps)) (ground arith)
          (All-map _ _ es (λ e h. ground (arith, h)) before.listed);
    accepted = λ pid q found. elim (Bool-cases (p.id == pid)) [
      | inl hit ↦ ground (arith, entry.has pid accepted_key, text_eq_refl accepted_key)
      | inr miss ↦ ground (arith, entry.has pid accepted_key, before.accepted pid q)
    ];
    settlement = λ pid q found. elim (Bool-cases (p.id == pid)) [
      | inl hit ↦
          let here : p.id ≡ pid = ground arith in
          let is_new : p ≡ q = ground arith in
          let none_yet = unlisted ps p.id settled_key es fresh before.listed in
          let none_here = subst (λ i. any (same_entry i settled_key) es ≡ false) here none_yet in
          let unpaid_q = subst (λ x. is_succeeded x.status ≡ false) is_new unpaid in
          entry.has pid settled_key ∙ ground (arith, none_here, unpaid_q)
      | inr miss ↦
          let was = before.settlement pid q (ground arith) in
          entry.has pid settled_key ∙ ground (arith, was)
    ];
    two_states = λ pid q found. elim (Bool-cases (p.id == pid)) [
      | inl hit ↦
          let is_new : p ≡ q = ground arith in
          subst (λ x. is_pending x.status ≡ not (is_succeeded x.status)) is_new (ground arith)
      | inr miss ↦ before.two_states pid q (ground arith)
    ];
  }

  -- An entry under another key, for a payment that is there.
  pub other-Booked :
      (pid : ℕ) (key : Text)
      → any (has_id pid) ps ≡ true
      → text_eq key accepted_key ≡ false
      → text_eq key settled_key ≡ false
      → Appended pid key es es'
      → Booked ps es'
  other-Booked pid key there not_accepted not_settled entry = record {
    listed = entry.listed (λ i. any (has_id i) ps) there before.listed;
    accepted = λ k q found.
        let was = before.accepted k q found in entry.has k accepted_key ∙ ground (arith, was);
    settlement = λ k q found.
        let was = before.settlement k q found in entry.has k settled_key ∙ ground (arith, was);
    two_states = before.two_states;
  }

  pub settled-Booked :
      (now pid : ℕ) (p : Payment)
      → find (has_id pid) ps ≡ some p
      → is_succeeded p.status ≡ false
      → Appended pid settled_key es es'
      → Booked (update_where (to_settle pid) (settled now) ps) es'
  settled-Booked now pid p found unpaid entry =
      let same_ids =
        λ (k : ℕ). any-update (has_id k) (to_settle pid) (settled now) ps (λ q. refl) in
      record {
        listed =
            All-map _ _ es' (λ e h. same_ids e.payment_id ∙ h)
              (entry.listed (λ i. any (has_id i) ps) (find-some-any (has_id pid) ps p found)
                before.listed);
        accepted = λ k q at_k.
            let (was, there, at_id, made) = origin ps now pid k q at_k in
            let old = before.accepted k was there in entry.has k accepted_key ∙ ground (arith, old);
        settlement = λ k q at_k.
            let (was, there, at_id, made) = origin ps now pid k q at_k in
            let old = before.settlement k was there in
            let states = before.two_states k was there in
            elim (Bool-cases (pid == k)) [
              | inl hit ↦
                  let here : pid ≡ k = ground arith in
                  let found_k = subst (λ i. find (has_id i) ps ≡ some p) here found in
                  let same : p ≡ was = ground arith in
                  let unpaid_was = subst (λ x. is_succeeded x.status ≡ false) same unpaid in
                  entry.has k settled_key ∙ ground (arith, text_eq_refl settled_key)
              | inr miss ↦ entry.has k settled_key ∙ ground (arith, old)
            ];
        two_states = λ k q at_k.
            let (was, there, at_id, made) = origin ps now pid k q at_k in
            let states = before.two_states k was there in ground arith;
      }
