-- ===== src/Rtl/Stream/Release.antt =====
-- How `rtlsdr_read_async` ends: what is freed, the status that stays, and when it comes to an end.
use rtlsdrwrapper.Base.{ℕ, zero, suc, ◌+◌, ◌≡◌, ◌≢◌, refl, ap, ◌∙◌, ◌⊎◌, inl, inr, arith}
use rtlsdrwrapper.Base.{List, [], ◌∷◌, Option, none, some, Bool, true, false, ◌||◌, if_ind}
use rtlsdrwrapper.Base.Int.{ℤ, pos, negsuc, eq_ℤ}
use rtlsdrwrapper.Base.Int.{is_negative}
use rtlsdrwrapper.Rtl.Stream.{
  AsyncStatus, inactive, canceling, running, TransferStatus, Stream, Event, cancel_async,
  transfer_failed, libusb_callback, handle_event, handle_events, is_inactive, is_canceling,
  alloc_async_buffers, called, submit_transfer,
}
use rtlsdrwrapper.Rtl.Stream.Order.{or_true}
use rtlsdrwrapper.Rtl.Stream.Loop.{
  Round, Local, World, status_of, needs_cancel, cancel_one, cancel_from, cancel_there, cancel_round,
  play_round, event_loop, submit_from, started, close_loop, closed, read_async, interrupted,
  prepared,
}

-- The status that will be stored is not `running`.
abbrev IsEnding : Local → Type 0
IsEnding v = v.next_status ≢ running

cancel_one-IsEnding :
    (round : Round) (i : ℕ) (v : Local) → IsEnding v → IsEnding (cancel_one round i v)
unfolding cancel_one
cancel_one-IsEnding round i v h =
    if_ind IsEnding (needs_cancel (status_of v.dev i)) _ _
      (λ _.
        if_ind (λ status. status ≢ running) (is_negative (round.cancel_result i)) v.next_status
          canceling (λ _. h) (λ _ e. ground arith))
      (λ _. h)

cancel_from-IsEnding :
    (round : Round) (i n : ℕ) (v : Local) → IsEnding v → IsEnding (cancel_from round i n v)
unfolding cancel_from
cancel_from-IsEnding round i zero v h = h
cancel_from-IsEnding round i (suc n) v h =
    cancel_from-IsEnding round (i + 1) n (cancel_one round i v) (cancel_one-IsEnding round i v h)

cancel_there-IsEnding :
    (xfer : Option (List (Option TransferStatus))) (round : Round) (v : Local)
    → IsEnding (cancel_there xfer round v).1
unfolding cancel_there
cancel_there-IsEnding none round v = λ e. ground arith
cancel_there-IsEnding (some xs) round v =
    let w = cancel_from round 0 v.dev.xfer_buf_num (record v { next_status = inactive }) in
    let h =
      cancel_from-IsEnding round 0 v.dev.xfer_buf_num (record v { next_status = inactive })
        (λ e. ground arith) in
    if_ind (λ (p : Bool × Local). IsEnding p.1) (w.dev.dev_lost || is_inactive w.next_status) _ _
      (λ _. h) (λ _. h)

play_round-IsEnding : (round : Round) (v : Local) → IsEnding v → IsEnding (play_round round v).1
unfolding play_round cancel_round
play_round-IsEnding round v h =
    let w = record v { r = round.result; dev = handle_events round.events v.dev } in
    if_ind (λ (p : Bool × Local). IsEnding p.1) (is_negative round.result) _ _ (λ _. h)
      (λ _.
        if_ind (λ (p : Bool × Local). IsEnding p.1) (is_canceling w.dev.async_status)
          (cancel_round round w) (true, w) (λ _. cancel_there-IsEnding w.dev.xfer round w) (λ _. h))

abbrev pub OnSome : {A : Type 0} → (A → Type 0) → Option A → Type 0
OnSome P none = Unit
OnSome P (some a) = P a

event_loop-IsEnding :
    (rounds : List Round) (v : Local) → IsEnding v → OnSome IsEnding (event_loop rounds v)
unfolding event_loop
event_loop-IsEnding [] v h =
    if_ind (OnSome IsEnding) (is_inactive v.dev.async_status) (some v) none (λ _. h) (λ _. tt)
event_loop-IsEnding (round ∷ rounds) v h =
    let (goes_on, w) = play_round round v in
    let ending = play_round-IsEnding round v h in
    if_ind (OnSome IsEnding) (is_inactive v.dev.async_status) (some v) _ (λ _. h)
      (λ _.
        if_ind (OnSome IsEnding) goes_on (event_loop rounds w) (some w)
          (λ _. event_loop-IsEnding rounds w ending) (λ _. ending))

submit_from-IsEnding :
    (submitted : ℕ → ℤ) (i n : ℕ) (v : Local) → IsEnding v → IsEnding (submit_from submitted i n v)
unfolding submit_from
submit_from-IsEnding submitted i zero v h = h
submit_from-IsEnding submitted i (suc n) v h =
    let w = record v { r = submitted i; dev = called (submit_transfer i) v.dev } in
    if_ind IsEnding (is_negative (submitted i)) _ (submit_from submitted (i + 1) n w) (λ _. h)
      (λ _. submit_from-IsEnding submitted (i + 1) n w h)

inactive_ending : inactive ≢ running
inactive_ending e = ground arith

started-IsEnding :
    (world : World) (has_cb : Bool) (buf_num buf_len : ℕ) (s : Stream)
    → IsEnding (started world has_cb buf_num buf_len s)
unfolding started
started-IsEnding world has_cb buf_num buf_len s =
    let s1 = alloc_async_buffers world.transfers world.memory (prepared has_cb buf_num buf_len s) in
    submit_from-IsEnding world.submitted 0 s1.xfer_buf_num
      (record { next_status = inactive; r = pos 0; dev = s1 }) inactive_ending

busy_status : (status : AsyncStatus) → is_inactive status ≡ false → status ≢ inactive
busy_status status busy e = ground arith

-- What a call of `rtlsdr_read_async` leaves behind: no transfers and no buffers, and a status that is not
-- `running`.
abbrev pub Released : ℤ × Stream → Type 0
Released (r, s) = (s.xfer ≡ none) × (s.xfer_buf ≡ none) × (s.async_status ≢ running)

closed-Released : (o : Option Local) → OnSome IsEnding o → OnSome Released (closed o)
unfolding closed close_loop
closed-Released none h = tt
closed-Released (some v) h = (refl, refl, h)

idle_status : (status : AsyncStatus) → is_inactive status ≡ true → status ≡ inactive
idle_status inactive idle = refl
idle_status canceling idle = absurd (ground arith)
idle_status running idle = absurd (ground arith)

-- Where the status is not inactive, a call returns -2 and changes nothing. Where it is inactive and the
-- call returns, it has freed its transfers and buffers, and the status is not `running`, whatever libusb
-- did.
pub read_async-Released :
    (world : World) (has_cb : Bool) (buf_num buf_len : ℕ) (s : Stream)
    → ((s.async_status ≢ inactive)
        × (read_async world has_cb buf_num buf_len s ≡ some (negsuc 1, s)))
      ⊎ ((s.async_status ≡ inactive) × OnSome Released (read_async world has_cb buf_num buf_len s))
unfolding read_async
read_async-Released world has_cb buf_num buf_len s =
    let v = started world has_cb buf_num buf_len s in
    if_ind
      (λ o.
        ((s.async_status ≢ inactive) × (o ≡ some (negsuc 1, s)))
        ⊎ ((s.async_status ≡ inactive) × OnSome Released o))
      (is_inactive s.async_status) (closed (event_loop world.rounds v)) (some (negsuc 1, s))
      (λ idle. inr (
        idle_status s.async_status idle,
        closed-Released (event_loop world.rounds v)
            (event_loop-IsEnding world.rounds v (started-IsEnding world has_cb buf_num buf_len s)),
      ))
      (λ busy. inl (busy_status s.async_status busy, refl))

-- A stream that is being cancelled stays so.
handle_event-canceling :
    (e : Event) (s : Stream)
    → s.async_status ≡ canceling
    → (handle_event e s).async_status ≡ canceling
unfolding handle_event libusb_callback transfer_failed cancel_async
handle_event-canceling e s h = ground arith

handle_events-canceling :
    (es : List Event) (s : Stream)
    → s.async_status ≡ canceling
    → (handle_events es s).async_status ≡ canceling
unfolding handle_events
handle_events-canceling [] s h = h
handle_events-canceling (e ∷ es) s h =
    handle_events-canceling es (handle_event e s) (handle_event-canceling e s h)

not_both : (t : Bool) → t ≡ true → t ≡ false → ⊥
not_both t e f = ground arith

-- Where no transfer is left to cancel, cancelling does nothing.
cancel_from-nothing :
    (round : Round) (i n : ℕ) (v : Local)
    → ((j : ℕ) → needs_cancel (status_of v.dev j) ≡ false)
    → cancel_from round i n v ≡ v
unfolding cancel_from cancel_one
cancel_from-nothing round i zero v h = refl
cancel_from-nothing round i (suc n) v h =
    ap (cancel_from round (i + 1) n) (
      if_ind (λ w. w ≡ v) (needs_cancel (status_of v.dev i)) _ v
        (λ e. absurd (not_both (needs_cancel (status_of v.dev i)) e (h i))) (λ _. refl))
    ∙ cancel_from-nothing round (i + 1) n v h

-- The end of a stream: freed, and the status `inactive`.
abbrev pub Stopped : ℤ × Stream → Type 0
Stopped (r, s) = (s.xfer ≡ none) × (s.xfer_buf ≡ none) × (s.async_status ≡ inactive)

last_round :
    (xfer : Option (List (Option TransferStatus))) (round : Round) (v : Local)
    → ((j : ℕ) → needs_cancel (status_of v.dev j) ≡ false)
    → ((cancel_there xfer round v).0 ≡ false)
      × ((cancel_there xfer round v).1.next_status ≡ inactive)
unfolding cancel_there
last_round none round v h = (refl, refl)
last_round (some xs) round v h =
    rw (cancel_from-nothing round 0 v.dev.xfer_buf_num (record v { next_status = inactive }) h) (
      if_ind (λ (p : Bool × Local). (p.0 ≡ false) × (p.1.next_status ≡ inactive))
        (v.dev.dev_lost || true) _ _ (λ _. (refl, refl))
        (λ e. absurd (not_both (v.dev.dev_lost || true) (or_true v.dev.dev_lost) e)))

-- A round without an error of a stream that is being cancelled.
cancelling_round :
    (round : Round) (v : Local)
    → v.dev.async_status ≡ canceling
    → is_negative round.result ≡ false
    → (let w = record v { r = round.result; dev = handle_events round.events v.dev } in
        play_round round v ≡ cancel_there w.dev.xfer round w)
unfolding play_round cancel_round
cancelling_round round v busy fine =
    let w = record v { r = round.result; dev = handle_events round.events v.dev } in
    rw fine (
      if_ind (λ p. p ≡ cancel_there w.dev.xfer round w) (is_canceling w.dev.async_status) _
        (true, w) (λ _. refl)
        (λ e. absurd (
          not_both (is_canceling w.dev.async_status)
            (ap is_canceling (handle_events-canceling round.events v.dev busy)) e)))

-- A round that does not go on ends the loop.
loop_ends :
    (round : Round) (rounds : List Round) (v : Local)
    → is_inactive v.dev.async_status ≡ false
    → (play_round round v).0 ≡ false
    → event_loop (round ∷ rounds) v ≡ some (play_round round v).1
unfolding event_loop
loop_ends round rounds v busy ends =
    let (goes_on, w) = play_round round v in
    if_ind (λ o. o ≡ some w) (is_inactive v.dev.async_status) (some v) _
      (λ e. absurd (not_both (is_inactive v.dev.async_status) e busy))
      (λ _.
        if_ind (λ o. o ≡ some w) goes_on (event_loop rounds w) (some w)
          (λ e. absurd (not_both goes_on e ends)) (λ _. refl))

-- A stream that is being cancelled ends in the next round that handles events without an error and after
-- which every transfer is cancelled: the call returns, has freed transfers and buffers, and the status is
-- `inactive`.
pub event_loop-Stopped :
    (round : Round) (rounds : List Round) (v : Local)
    → v.dev.async_status ≡ canceling
    → is_negative round.result ≡ false
    → ((j : ℕ) → needs_cancel (status_of (handle_events round.events v.dev) j) ≡ false)
    → (res : ℤ × Stream) × (closed (event_loop (round ∷ rounds) v) ≡ some res) × Stopped res
unfolding closed close_loop
event_loop-Stopped round rounds v busy fine all_cancelled =
    let w = record v { r = round.result; dev = handle_events round.events v.dev } in
    let step = cancelling_round round v busy fine in
    let (ends, status) = last_round w.dev.xfer round w all_cancelled in
    (
      close_loop (play_round round v).1,
      ap closed (loop_ends round rounds v (ap is_inactive busy) (ap (λ p. p.0) step ∙ ends)),
      (refl, refl, ap (λ p. p.1.next_status) step ∙ status),
    )

-- Where a transfer was cancelled in the round before and the next round fails with an error other than an
-- interrupted call, the call returns with the status `canceling` and everything freed. From then on
-- cancelling and streaming are refused with -2.
pub event_loop-stuck :
    (round : Round) (rounds : List Round) (v : Local)
    → v.next_status ≡ canceling
    → v.dev.async_status ≡ canceling
    → is_negative round.result ≡ true
    → eq_ℤ round.result interrupted ≡ false
    → (s : Stream) × (closed (event_loop (round ∷ rounds) v) ≡ some (round.result, s))
      × (s.xfer ≡ none)
      × (cancel_async s ≡ (negsuc 1, s))
      × ((world : World) (has_cb : Bool) (num len : ℕ)
          → read_async world has_cb num len s ≡ some (negsuc 1, s))
unfolding closed close_loop cancel_async read_async play_round
event_loop-stuck round rounds v next busy failed other =
    let w = record v { r = round.result; dev = handle_events round.events v.dev } in
    let step : play_round round v ≡ (eq_ℤ round.result interrupted, w) = rw failed refl in
    (
      (close_loop w).1,
      ap closed (
          loop_ends round rounds v (ap is_inactive busy)
            (ap (λ (p : Bool × Local). p.0) step ∙ other)
          ∙ ap (λ (p : Bool × Local). some p.1) step),
      refl,
      rw next refl,
      λ world has_cb num len. rw next refl,
    )
