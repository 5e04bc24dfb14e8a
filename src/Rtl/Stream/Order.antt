-- ===== src/Rtl/Stream/Order.antt =====
-- What handling events does to a stream: the calls in order, the errors counted, the status.
use rtlsdrwrapper.Base.{ℕ, ◌+◌, ◌^◌, ◌≤◌, ◌<◌, ◌≡◌, ◌≢◌, refl, sym, ap, subst, ◌∙◌, arith}
use rtlsdrwrapper.Base.{
  List, [], ◌∷◌, ◌++◌, length, Bool, true, false, ◌||◌, leb, if◌then◌else◌, u32,
}
use rtlsdrwrapper.Rtl.Stream.{
  AsyncStatus, inactive, canceling, running, TransferStatus, completed, error, timed_out, cancelled,
  stall, no_device, overflow, Stream, Call, deliver, submit_transfer, Event, transfer_ends,
  user_cancels, cancel_async, transfer_failed, libusb_callback, handle_event, handle_events,
  store_status,
}

-- The calls that an event asks for, in order.
abbrev pub calls_for : Event → List Call
calls_for (transfer_ends i completed bytes) = deliver bytes ∷ submit_transfer i ∷ []
calls_for _ = []

abbrev pub calls_for_all : List Event → List Call
calls_for_all [] = []
calls_for_all (e ∷ es) = calls_for e ++ calls_for_all es

-- The calls so far, with the last call first, after more calls.
abbrev pub then_calls : List Call → List Call → List Call
then_calls before [] = before
then_calls before (c ∷ cs) = then_calls (c ∷ before) cs

-- The errors since the last transfer that completed.
abbrev pub streak : ℕ → Event → ℕ
streak n (transfer_ends i completed bytes) = 0
streak n (transfer_ends i error bytes) = n + 1
streak n _ = n

-- The event shows that the device is lost: with as many errors in a row as transfers, or none there.
abbrev pub shows_loss : ℕ → ℕ → Event → Bool
shows_loss num n (transfer_ends i completed bytes) = false
shows_loss num n (transfer_ends i cancelled bytes) = false
shows_loss num n (transfer_ends i error bytes) = leb num (n + 1)
shows_loss num n (transfer_ends i no_device bytes) = true
shows_loss num n (transfer_ends i _ bytes) = leb num n
shows_loss num n user_cancels = false

-- The event asks for the end of the stream.
abbrev pub asks_end : ℕ → ℕ → Event → Bool
asks_end num n user_cancels = true
asks_end num n (transfer_ends i status bytes) = shows_loss num n (transfer_ends i status bytes)

abbrev pub ended : Bool → AsyncStatus → AsyncStatus
ended true running = canceling
ended _ status = status

-- The state of a stream that events act on, without the transfers themselves.
pub record View : Type 0 where
  pub errors : ℕ
  pub lost : Bool
  pub status : AsyncStatus
  pub calls : List Call

-- What a stream with `num` transfers promises to do with an event, and with a sequence of them.
abbrev pub promised : ℕ → Event → View → View
promised num e v = record {
  errors = streak v.errors e;
  lost = shows_loss num v.errors e || v.lost;
  status = ended (asks_end num v.errors e) v.status;
  calls = then_calls v.calls (calls_for e);
}

abbrev pub promised_all : ℕ → List Event → View → View
promised_all num [] v = v
promised_all num (e ∷ es) v = promised_all num es (promised num e v)

abbrev pub view : Stream → View
view s = record {
  errors = s.xfer_errors;
  lost = s.dev_lost;
  status = s.async_status;
  calls = s.calls;
}

-- A step as promised that leaves the number of transfers and the callback alone.
Follows : Stream → Event → Stream → Type 0
Follows s e s' =
    (view s' ≡ promised s.xfer_buf_num e (view s))
    × (s'.xfer_buf_num ≡ s.xfer_buf_num)
    × (s'.has_cb ≡ s.has_cb)

-- The call of `rtlsdr_cancel_async`, by the status.
cancel_async-view :
    (s : Stream) (status : AsyncStatus)
    → s.async_status ≡ status
    → (view (cancel_async s).1 ≡ record (view s) { status = ended true status })
      × ((cancel_async s).1.xfer_buf_num ≡ s.xfer_buf_num)
      × ((cancel_async s).1.has_cb ≡ s.has_cb)
unfolding cancel_async
cancel_async-view s running e = rw e (refl, refl, refl)
cancel_async-view s canceling e = rw e (refl, refl, refl)
cancel_async-view s inactive e = rw e (refl, refl, refl)

-- The test for a lost device, and what follows it.
loss-view :
    (s : Stream) (t u : Bool)
    → t ≡ u
    → (let s' = if t then (cancel_async (record s { dev_lost = true })).1 else s in
        (view s' ≡ record (view s) { lost = u || s.dev_lost; status = ended u s.async_status })
        × (s'.xfer_buf_num ≡ s.xfer_buf_num)
        × (s'.has_cb ≡ s.has_cb))
loss-view s true true e = cancel_async-view (record s { dev_lost = true }) s.async_status refl
loss-view s false false e = (refl, refl, refl)
loss-view s true false e = absurd (ground arith)
loss-view s false true e = absurd (ground arith)

or_false : (x : Bool) → (x || false) ≡ x
or_false true = refl
or_false false = refl

pub or_true : (x : Bool) → (x || true) ≡ true
or_true true = refl
or_true false = refl

failed-Follows :
    (i : ℕ) (bytes : List ℕ) (status : TransferStatus) (s : Stream)
    → s.xfer_errors + 1 < 2 ^ 32
    → status ≢ completed
    → status ≢ cancelled
    → Follows s (transfer_ends i status bytes) (transfer_failed status s)
unfolding transfer_failed Follows
failed-Follows i bytes error s small a b =
    subst
      (λ n. Follows s (transfer_ends i error bytes) (
        let s1 = record s { xfer_errors = n } in
        if leb s.xfer_buf_num n || false
        then (cancel_async (record s1 { dev_lost = true })).1
        else s1))
      (sym counted)
      (loss-view (record s { xfer_errors = s.xfer_errors + 1 })
        (leb s.xfer_buf_num (s.xfer_errors + 1) || false) (leb s.xfer_buf_num (s.xfer_errors + 1))
        (or_false (leb s.xfer_buf_num (s.xfer_errors + 1))))
  where
    counted : u32 (s.xfer_errors + 1) ≡ s.xfer_errors + 1
    counted = omega arith
failed-Follows i bytes timed_out s small a b =
    loss-view s _ _ (or_false (leb s.xfer_buf_num s.xfer_errors))
failed-Follows i bytes stall s small a b =
    loss-view s _ _ (or_false (leb s.xfer_buf_num s.xfer_errors))
failed-Follows i bytes overflow s small a b =
    loss-view s _ _ (or_false (leb s.xfer_buf_num s.xfer_errors))
failed-Follows i bytes no_device s small a b =
    loss-view s _ _ (or_true (leb s.xfer_buf_num s.xfer_errors))
failed-Follows i bytes completed s small a b = absurd (a refl)
failed-Follows i bytes cancelled s small a b = absurd (b refl)

handle_event-Follows :
    (e : Event) (s : Stream)
    → s.has_cb ≡ true
    → s.xfer_errors + 1 < 2 ^ 32
    → Follows s e (handle_event e s)
unfolding handle_event libusb_callback Follows
handle_event-Follows user_cancels s cb small = cancel_async-view s s.async_status refl
handle_event-Follows (transfer_ends i completed bytes) s cb small = rw cb (refl, refl, refl)
handle_event-Follows (transfer_ends i cancelled bytes) s cb small = (refl, refl, refl)
handle_event-Follows (transfer_ends i error bytes) s cb small =
    failed-Follows i bytes error (store_status i error s) small (λ e. ground arith)
      (λ e. ground arith)
handle_event-Follows (transfer_ends i timed_out bytes) s cb small =
    failed-Follows i bytes timed_out (store_status i timed_out s) small (λ e. ground arith)
      (λ e. ground arith)
handle_event-Follows (transfer_ends i stall bytes) s cb small =
    failed-Follows i bytes stall (store_status i stall s) small (λ e. ground arith)
      (λ e. ground arith)
handle_event-Follows (transfer_ends i no_device bytes) s cb small =
    failed-Follows i bytes no_device (store_status i no_device s) small (λ e. ground arith)
      (λ e. ground arith)
handle_event-Follows (transfer_ends i overflow bytes) s cb small =
    failed-Follows i bytes overflow (store_status i overflow s) small (λ e. ground arith)
      (λ e. ground arith)

streak_le : (n : ℕ) (e : Event) → streak n e ≤ n + 1
streak_le n (transfer_ends i completed bytes) = omega arith
streak_le n (transfer_ends i error bytes) = omega arith
streak_le n (transfer_ends i timed_out bytes) = omega arith
streak_le n (transfer_ends i cancelled bytes) = omega arith
streak_le n (transfer_ends i stall bytes) = omega arith
streak_le n (transfer_ends i no_device bytes) = omega arith
streak_le n (transfer_ends i overflow bytes) = omega arith
streak_le n user_cancels = omega arith

-- For a stream with a callback whose count of errors cannot reach 2^32, handling events does what is
-- promised for them in order: data is delivered and its transfer submitted again, the errors since the
-- last completed transfer are counted, the device is lost where they are as many as the transfers or
-- it is reported missing, and a running stream is cancelled by this or by the user.
pub handle_events-promised :
    (es : List Event) (s : Stream)
    → s.has_cb ≡ true
    → s.xfer_errors + length es < 2 ^ 32
    → view (handle_events es s) ≡ promised_all s.xfer_buf_num es (view s)
unfolding handle_events Follows
handle_events-promised [] s cb small = refl
handle_events-promised (e ∷ es) s cb small =
    let s1 = handle_event e s in
    let (step, num, same) = handle_event-Follows e s cb (omega arith) in
    let errors : s1.xfer_errors ≡ streak s.xfer_errors e = ap (λ v. v.errors) step in
    handle_events-promised es s1 (same ∙ cb) (omega (arith, errors, streak_le s.xfer_errors e))
    ∙ ap (λ n. promised_all n es (view s1)) num
    ∙ ap (promised_all s.xfer_buf_num es) step
