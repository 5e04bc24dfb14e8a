-- ===== src/Rtl/Stream/Loop.antt =====
-- `rtlsdr_read_async` of librtlsdr.c. What libusb does in a round of the loop is given round by round.
use rtlsdrwrapper.Base.{ℕ, zero, suc, ◌+◌, ◌*◌, ◌%◌, List, [], ◌∷◌, Option, none, some}
use rtlsdrwrapper.Base.{Bool, true, false, ◌&&◌, ◌||◌, not, ltb, ◌==◌, if◌then◌else◌, get_or}
use rtlsdrwrapper.Base.Int.{ℤ, pos, negsuc, eq_ℤ}
use rtlsdrwrapper.Base.Int.{is_negative}
use rtlsdrwrapper.Rtl.Stream.{
  AsyncStatus, inactive, canceling, running, TransferStatus, Stream, Event, is_inactive,
  is_canceling, is_cancelled, called, submit_transfer, cancel_transfer, handle_events,
  alloc_async_buffers, free_async_buffers,
}

-- A round: the result of handling events and the events before it; the result of cancelling transfer `i`
-- and the events after it; and the events that are handled last.
pub record Round : Type 0 where
  pub result : ℤ
  pub events : List Event
  pub cancel_result : ℕ → ℤ
  pub cancel_events : ℕ → List Event
  pub last_events : List Event

-- The local variables `next_status` and `r` of the loop beside the device.
pub record Local : Type 0 where
  pub next_status : AsyncStatus
  pub r : ℤ
  pub dev : Stream

-- The status of transfer `i`, `none` for a null pointer.
abbrev pub status_of : Stream → ℕ → Option TransferStatus
status_of s i = elim s.xfer [ none ↦ none | some xs ↦ get_or xs i none ]

abbrev pub needs_cancel : Option TransferStatus → Bool
needs_cancel none = false
needs_cancel (some status) = not (is_cancelled status)

-- One pass of the loop that cancels: transfer `i`.
unfoldable pub cancel_one : Round → ℕ → Local → Local
unfolding handle_events
cancel_one round i v =
    let r = round.cancel_result i in
    let s = handle_events (round.cancel_events i) (called (cancel_transfer i) v.dev) in
    if needs_cancel (status_of v.dev i)
    then record { next_status = if is_negative r then v.next_status else canceling; r = r; dev = s }
    else v

unfoldable pub cancel_from : Round → ℕ → ℕ → Local → Local
unfolding cancel_one
cancel_from round i zero v = v
cancel_from round i (suc n) v = cancel_from round (i + 1) n (cancel_one round i v)

-- A round that finds the status `canceling`, by the array of transfers; true where the loop goes on.
unfoldable pub cancel_there : Option (List (Option TransferStatus)) → Round → Local → Bool × Local
unfolding cancel_from handle_events
cancel_there none round v = (false, record v { next_status = inactive })
cancel_there (some xs) round v =
    let w = cancel_from round 0 v.dev.xfer_buf_num (record v { next_status = inactive }) in
    if w.dev.dev_lost || is_inactive w.next_status
    then (false, record w { dev = handle_events round.last_events w.dev })
    else (true, w)

unfoldable pub cancel_round : Round → Local → Bool × Local
unfolding cancel_there
cancel_round round v = cancel_there v.dev.xfer round v

-- `LIBUSB_ERROR_INTERRUPTED`
abbrev pub interrupted : ℤ
interrupted = negsuc 9

unfoldable pub play_round : Round → Local → Bool × Local
unfolding cancel_round handle_events
play_round round v =
    let w = record v { r = round.result; dev = handle_events round.events v.dev } in
    if is_negative round.result
    then (eq_ℤ round.result interrupted, w)
    else if is_canceling w.dev.async_status
    then cancel_round round w
    else (true, w)

-- The loop, `none` where the rounds are used up before it ends.
unfoldable pub event_loop : List Round → Local → Option Local
unfolding play_round
event_loop [] v = if is_inactive v.dev.async_status then some v else none
event_loop (round ∷ rounds) v =
    let (goes_on, w) = play_round round v in
    let rest = event_loop rounds w in
    if is_inactive v.dev.async_status then some v else if goes_on then rest else some w

-- The transfers are submitted up to the first that libusb refuses.
unfoldable pub submit_from : (ℕ → ℤ) → ℕ → ℕ → Local → Local
submit_from submitted i zero v = v
submit_from submitted i (suc n) v =
    let w = record v { r = submitted i; dev = called (submit_transfer i) v.dev } in
    let rest = submit_from submitted (i + 1) n w in
    if is_negative (submitted i)
    then record w { dev = record w.dev { async_status = canceling } }
    else rest

-- The fields that a call sets before its buffers are there.
abbrev pub prepared : Bool → ℕ → ℕ → Stream → Stream
prepared has_cb buf_num buf_len s = record s {
  async_status = running;
  async_cancel = false;
  has_cb = has_cb;
  xfer_buf_num = if ltb 0 buf_num then buf_num else 15;
  xfer_buf_len = if ltb 0 buf_len && buf_len % 512 == 0 then buf_len else 16 * 32 * 512;
}

-- What follows the loop.
unfoldable pub close_loop : Local → ℤ × Stream
unfolding free_async_buffers
close_loop v = (v.r, record (free_async_buffers v.dev) { async_status = v.next_status })

-- What libusb and `malloc` do in a call.
pub record World : Type 0 where
  pub transfers : ℕ → Bool
  pub memory : ℕ → Bool
  pub submitted : ℕ → ℤ
  pub rounds : List Round

-- The state before the loop.
unfoldable pub started : World → Bool → ℕ → ℕ → Stream → Local
unfolding alloc_async_buffers submit_from
started world has_cb buf_num buf_len s =
    let s1 = alloc_async_buffers world.transfers world.memory (prepared has_cb buf_num buf_len s) in
    submit_from world.submitted 0 s1.xfer_buf_num
      (record { next_status = inactive; r = pos 0; dev = s1 })

unfoldable pub closed : Option Local → Option (ℤ × Stream)
unfolding close_loop
closed none = none
closed (some v) = some (close_loop v)

unfoldable pub read_async : World → Bool → ℕ → ℕ → Stream → Option (ℤ × Stream)
unfolding started event_loop closed
read_async world has_cb buf_num buf_len s =
    if is_inactive s.async_status
    then closed (event_loop world.rounds (started world has_cb buf_num buf_len s))
    else some (negsuc 1, s)

unfoldable pub wait_async : World → Bool → Stream → Option (ℤ × Stream)
unfolding read_async
wait_async world has_cb s = read_async world has_cb 0 0 s
