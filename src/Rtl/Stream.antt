-- ===== src/Rtl/Stream.antt =====
-- Asynchronous streaming of librtlsdr.c: the streaming fields of `struct rtlsdr_dev`, the callback of a
-- transfer, `rtlsdr_cancel_async`, and the buffers. Zero-copy buffers are not compiled in. The calls that
-- go to libusb and to the user's callback are kept in a list.
pub mod Loop
pub mod Order
pub mod Release
use rtlsdrwrapper.Base.{ℕ, zero, suc, ◌+◌, ◌*◌, ◌%◌, ◌^◌, List, [], ◌∷◌, Option, none, some}
use rtlsdrwrapper.Base.{Bool, true, false, ◌&&◌, ◌||◌, not, leb, ltb, ◌==◌, if◌then◌else◌, u32}
use rtlsdrwrapper.Base.Int.{ℤ, pos, negsuc}

-- `enum rtlsdr_async_status`
pub data AsyncStatus : Type 0 where
  inactive canceling running : AsyncStatus

-- `enum libusb_transfer_status`
pub data TransferStatus : Type 0 where
  completed error timed_out cancelled stall no_device overflow : TransferStatus

-- A call of the user's callback with data; `libusb_submit_transfer` and `libusb_cancel_transfer` with the
-- number of a transfer.
pub data Call : Type 0 where
  deliver : List ℕ → Call
  submit_transfer : ℕ → Call
  cancel_transfer : ℕ → Call

-- `xfer` has the status of every transfer, `none` for a null pointer; `xfer_buf` which buffers are there.
-- `calls` has the last call first.
pub record Stream : Type 0 where
  pub xfer_buf_num : ℕ
  pub xfer_buf_len : ℕ
  pub xfer : Option (List (Option TransferStatus))
  pub xfer_buf : Option (List Bool)
  pub has_cb : Bool
  pub async_status : AsyncStatus
  pub async_cancel : Bool
  pub dev_lost : Bool
  pub xfer_errors : ℕ
  pub calls : List Call

abbrev pub is_running : AsyncStatus → Bool
is_running running = true
is_running _ = false

abbrev pub is_inactive : AsyncStatus → Bool
is_inactive inactive = true
is_inactive _ = false

abbrev pub is_canceling : AsyncStatus → Bool
is_canceling canceling = true
is_canceling _ = false

abbrev pub is_error : TransferStatus → Bool
is_error error = true
is_error _ = false

abbrev pub is_no_device : TransferStatus → Bool
is_no_device no_device = true
is_no_device _ = false

abbrev pub is_cancelled : TransferStatus → Bool
is_cancelled cancelled = true
is_cancelled _ = false

abbrev pub called : Call → Stream → Stream
called c s = record s { calls = c ∷ s.calls }

unfoldable pub cancel_async : Stream → ℤ × Stream
cancel_async s =
    if is_running s.async_status
    then (pos 0, record s { async_status = canceling; async_cancel = true })
    else (negsuc 1, s)

-- A transfer that failed and was not cancelled.
unfoldable pub transfer_failed : TransferStatus → Stream → Stream
unfolding cancel_async
transfer_failed status s =
    let s1 = if is_error status then record s { xfer_errors = u32 (s.xfer_errors + 1) } else s in
    if leb s1.xfer_buf_num s1.xfer_errors || is_no_device status
    then (cancel_async (record s1 { dev_lost = true })).1
    else s1

-- `_libusb_callback` for the transfer with number `i`, whose buffer has the data.
unfoldable pub libusb_callback : ℕ → TransferStatus → List ℕ → Stream → Stream
unfolding transfer_failed
libusb_callback i completed bytes s =
    let s1 = if s.has_cb then called (deliver bytes) s else s in
    record (called (submit_transfer i) s1) { xfer_errors = 0 }
libusb_callback i cancelled bytes s = s
libusb_callback i error bytes s = transfer_failed error s
libusb_callback i timed_out bytes s = transfer_failed timed_out s
libusb_callback i stall bytes s = transfer_failed stall s
libusb_callback i no_device bytes s = transfer_failed no_device s
libusb_callback i overflow bytes s = transfer_failed overflow s

-- What happens while libusb handles events: a transfer ends, which stores its status and calls the
-- callback; or the user, in the callback or in another thread, calls `rtlsdr_cancel_async`.
pub data Event : Type 0 where
  transfer_ends : ℕ → TransferStatus → List ℕ → Event
  user_cancels : Event

pub set_status : List (Option TransferStatus) → ℕ → TransferStatus → List (Option TransferStatus)
set_status [] i status = []
set_status (x ∷ xs) zero status = some status ∷ xs
set_status (x ∷ xs) (suc i) status = x ∷ set_status xs i status

abbrev pub store_status : ℕ → TransferStatus → Stream → Stream
unfolding set_status
store_status i status s = record s {
  xfer = elim s.xfer [ none ↦ none | some xs ↦ some (set_status xs i status) ];
}

unfoldable pub handle_event : Event → Stream → Stream
unfolding libusb_callback cancel_async store_status
handle_event (transfer_ends i status bytes) s =
    libusb_callback i status bytes (store_status i status s)
handle_event user_cancels s = (cancel_async s).1

unfoldable pub handle_events : List Event → Stream → Stream
unfolding handle_event
handle_events [] s = s
handle_events (e ∷ es) s = handle_events es (handle_event e s)

-- `n` times a value by its index, from `i` on.
pub tabulate : {A : Type 0} → (ℕ → A) → ℕ → ℕ → List A
tabulate f i zero = []
tabulate f i (suc n) = f i ∷ tabulate f (i + 1) n

-- The buffers that `malloc` gives up to the first that it does not; the others stay null.
pub filled : (ℕ → Bool) → ℕ → ℕ → List Bool
filled memory i zero = []
filled memory i (suc n) =
    let rest = filled memory (i + 1) n in
    if memory i then true ∷ rest else false ∷ tabulate (λ j. false) (i + 1) n

-- `_rtlsdr_alloc_async_buffers`: `transfers i` tells if `libusb_alloc_transfer` gives one, whose status is
-- 0, and `memory i` if `malloc` gives the buffer. The arrays themselves are taken to be given. The return
-- value, which the only caller drops, is left out.
unfoldable pub alloc_async_buffers : (ℕ → Bool) → (ℕ → Bool) → Stream → Stream
unfolding tabulate filled
alloc_async_buffers transfers memory s =
    let fresh = tabulate (λ i. if transfers i then some completed else none) 0 s.xfer_buf_num in
    record s {
      xfer = elim s.xfer [ none ↦ some fresh | some xs ↦ some xs ];
      xfer_buf = elim s.xfer_buf [
        | none ↦ some (filled memory 0 s.xfer_buf_num)
        | some bs ↦ some bs
      ];
    }

unfoldable pub free_async_buffers : Stream → Stream
free_async_buffers s = record s { xfer = none; xfer_buf = none }
