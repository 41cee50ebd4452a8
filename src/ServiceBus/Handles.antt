-- ===== src/ServiceBus/Handles.antt =====
-- The handles that NewAzureServiceBusFromConnectionString and Close of
-- payflow-app/internal/queue/servicebus.go open and close.
use payflow_payments_ops_pla.Base.{
  ◌≤◌, ◌≡◌, Bool, true, false, Option, none, some, List, [], count_where, arith, ◌+◌,
}
use payflow_payments_ops_pla.Text.{Text}
use payflow_payments_ops_pla.ServiceBus.{
  Handle, client, settlement_sender, webhook_sender, refund_sender, settlement_recv, webhook_recv,
  refund_recv, Bus, Event, opened, closed, close, close_senders, close_senders_receivers, connect,
}

abbrev pub handle_eq : Handle → Handle → Bool
handle_eq client client = true
handle_eq settlement_sender settlement_sender = true
handle_eq webhook_sender webhook_sender = true
handle_eq refund_sender refund_sender = true
handle_eq settlement_recv settlement_recv = true
handle_eq webhook_recv webhook_recv = true
handle_eq refund_recv refund_recv = true
handle_eq _ _ = false

abbrev pub is_opened : Handle → Event → Bool
is_opened h (opened x) = handle_eq x h
is_opened h (closed x) = false

abbrev pub is_closed : Handle → Event → Bool
is_closed h (opened x) = false
is_closed h (closed x) = handle_eq x h

-- What is still to close: a bus that connect returned is closed by Close.
abbrev pub left_to_close : Option Bus → List Handle
left_to_close none = []
left_to_close (some b) = close b

abbrev pub Balanced : Handle → Option Bus × List Event → Type 0
Balanced h out =
    (count_where (is_closed h) out.1 + count_where (λ x. handle_eq x h) (left_to_close out.0)
      ≡ count_where (is_opened h) out.1)
    × (count_where (is_opened h) out.1 ≤ 1)

-- Whatever calls of the client fail while NewAzureServiceBusFromConnectionString runs, it opens each
-- handle at most once, and closes a handle as often as it opened it, where the Close of the bus that it
-- returned counts.
pub connect-Balanced :
    (conn : Text) (fails : Handle → Bool) (h : Handle) → Balanced h (connect conn fails)
unfolding connect close close_senders close_senders_receivers
connect-Balanced conn fails client = ground arith
connect-Balanced conn fails settlement_sender = ground arith
connect-Balanced conn fails webhook_sender = ground arith
connect-Balanced conn fails refund_sender = ground arith
connect-Balanced conn fails settlement_recv = ground arith
connect-Balanced conn fails webhook_recv = ground arith
connect-Balanced conn fails refund_recv = ground arith
