-- ===== src/Async/Clients/Poll/Prints.antt =====
-- What the poll client of Lecture 2 prints (poll/TCPClient_poll.cpp).
use network_all_in_one.Prelude.{
  ℕ, ◌≤◌, ◌≡◌, ◌≢◌, refl, Bool, true, false, List, [], ◌∷◌, ◌++◌, Option, none, some, arith, length,
  length-append, ==_refl, drop, take_all, ◌==◌, if◌then◌else◌,
}
use network_all_in_one.Text.{Bytes, pos, Result, ok, throws, bad_buffer, ◌>>=◌}
use network_all_in_one.Text.Search.{Without}
use network_all_in_one.Kernel
use network_all_in_one.Kernel.{
  World, Io, pure, proceed, lift, recv, send, close, open_descriptor, try_call, get_flags,
  set_flags, next_bytes, next_count, next_status,
}
use network_all_in_one.Storage.Request.{buffer_size}
use network_all_in_one.Storage.Server.{change_flags, with_nonblock}
use network_all_in_one.Tcp.Echo.{NoData}
use network_all_in_one.Async.Select.{c_string}
use network_all_in_one.Basic.Clients.{Exit}
use network_all_in_one.Async.Clients.{
  stack_text, show_reply, Connection, connected, in_progress, refused,
}
use network_all_in_one.Async.Clients.Poll.{
  reported, make_socket_non_blocking, read_reply, await_reply, ask, check_socket, after_poll,
  after_connect, poll_client,
}

-- What a string of C finds in the memory behind it: bytes up to a zero, or no zero at all.
pub data Behind : Bytes → Option Bytes → Type 0 where
  stops : (part more : Bytes) → Without 0 part → Behind (part ++ 0 ∷ more) (some part)
  endless : (memory : Bytes) → Without 0 memory → Behind memory none

c_string-append : (xs ys : Bytes) → Without 0 xs → c_string (xs ++ ys) ≡ xs ++ c_string ys
unfolding c_string
c_string-append [] ys h = refl
c_string-append (x ∷ xs) ys h = ground (arith, c_string-append xs ys h.1)

-- The bytes of a reply, and what stands behind them.
abbrev pub Shown : Bytes → Option Bytes → Result Bytes
Shown message none = throws bad_buffer
Shown message (some part) = ok (message ++ part)

c_string_stops : (xs ys : Bytes) → Without 0 xs → c_string (xs ++ 0 ∷ ys) ≡ xs
unfolding c_string
c_string_stops [] ys h = refl
c_string_stops (x ∷ xs) ys h = ground (arith, c_string_stops xs ys h.1)

c_string_whole : (xs : Bytes) → Without 0 xs → c_string xs ≡ xs
unfolding c_string
c_string_whole [] h = refl
c_string_whole (x ∷ xs) h = ground (arith, c_string_whole xs h.1)

text_in : Bytes → Result Bytes
text_in buffer =
    if length (c_string buffer) == length buffer then throws bad_buffer else ok (c_string buffer)

text_in-Behind :
    (message memory : Bytes) (found : Option Bytes)
    → Without 0 message
    → Behind memory found
    → text_in (message ++ memory) ≡ Shown message found
unfolding text_in
text_in-Behind message _ _ plain (stops part more h) =
    let e : (length (message ++ part) == length (message ++ (part ++ 0 ∷ more))) ≡ false =
      rw
        (
          length-append message part,
          length-append message (part ++ 0 ∷ more),
          length-append part (0 ∷ more),
        )
        (ground arith) in
    rw (c_string-append message (part ++ 0 ∷ more) plain, c_string_stops part more h, e) refl
text_in-Behind message memory _ plain (endless _ h) =
    rw
      (
        c_string-append message memory plain,
        c_string_whole memory h,
        ==_refl (length (message ++ memory)),
      )
      refl

stack_text-Behind :
    (stack message : Bytes) (found : Option Bytes)
    → Without 0 message
    → Behind (drop (length message) stack) found
    → stack_text stack message ≡ Shown message found
unfolding stack_text text_in
stack_text-Behind stack message found plain h =
    text_in-Behind message (drop (length message) stack) found plain h

-- How main ends, by the text that it prints.
abbrev pub printed_by : Result Bytes → Result Exit
printed_by (ok text) = ok (record { code = pos 0; printed = text ∷ [] })
printed_by (throws e) = throws e

shows :
    (stack message : Bytes)
    → message ≢ []
    → show_reply stack (some message) ≡ (stack_text stack message >>= λ text. ok (text ∷ []))
unfolding show_reply
shows stack [] h = absurd (h refl)
shows stack (b ∷ bs) h = refl

ends :
    (r : Result Bytes) (sock : ℕ) (v : World NoData)
    → (proceed
        (r >>= λ text. ok (text ∷ []))
        (λ printed. Kernel.◌>>◌ (close sock) (pure (record { code = pos 0; printed = printed })))
        v).0
      ≡ printed_by r
unfolding close pure Kernel.◌>>=◌
ends (ok text) sock v = refl
ends (throws e) sock v = refl

module _ (stack message : Bytes) (found : Option Bytes) (sock room : ℕ) (rs : List (Option Bytes))
    (ss : List (Option ℕ)) (writable : Bool) (w : World NoData) (plain : Without 0 message)
    (nonempty : message ≢ []) (fits : length message ≤ buffer_size)
    (behind : Behind (drop (length message) stack) found) where
  ask_prints :
      (ask stack
        (reported writable true)
        sock
        (record w { recvs = some message ∷ rs; sends = some room ∷ ss })).0
      ≡ printed_by (Shown message found)
  unfolding ask await_reply read_reply recv send close lift next_bytes next_count pure Kernel.◌>>=◌
  ask_prints =
      rw
        (
          take_all buffer_size message fits,
          shows stack message nonempty,
          stack_text-Behind stack message found plain behind,
        )
        (ends (Shown message found) sock _)

module _ (stack message : Bytes) (found : Option Bytes) (sock room : ℕ) (rs : List (Option Bytes))
    (ss : List (Option ℕ)) (writable : Bool) (w : World NoData) (plain : Without 0 message)
    (nonempty : message ≢ []) (fits : length message ≤ buffer_size)
    (behind : Behind (drop (length message) stack) found) where
  -- The world behind socket and make_socket_non_blocking.
  started : List (Option ℕ) → List Bool → World NoData
  started os statuses = record w {
    opens = os;
    statuses = statuses;
    flags =
        (set_flags sock (with_nonblock (w.flags sock)) (record w { statuses = true ∷ [] })).1.flags;
    opened = sock ∷ w.opened;
  }

  -- The poll client, where connect succeeds or is in progress, the socket becomes writable, and a reply
  -- without a zero byte arrives in one read: it prints the reply and, behind it, what the memory of the
  -- buffer held there, up to a zero byte (the buffer is not cleared, and the number of bytes read is
  -- not used); where that memory holds none, the string is read past the end of the buffer.
  pub poll_client_prints :
      (connection : Connection) (os : List (Option ℕ)) (readable : Bool) (statuses : List Bool)
      → connection ≢ refused
      → (poll_client stack (reported writable true) connection (reported true readable) (record w {
        recvs = some message ∷ rs;
        sends = some room ∷ ss;
        opens = some sock ∷ os;
        statuses = true ∷ true ∷ true ∷ statuses;
      })).0
        ≡ printed_by (Shown message found)
  unfolding started poll_client make_socket_non_blocking change_flags after_connect after_poll
      check_socket open_descriptor try_call get_flags set_flags next_status next_count pure
      Kernel.◌>>=◌
  poll_client_prints connected os readable statuses h =
      ask_prints stack message found sock room rs ss writable (started os statuses) plain nonempty
        fits behind
  poll_client_prints in_progress os readable statuses h =
      ask_prints stack message found sock room rs ss writable (started os statuses) plain nonempty
        fits behind
  poll_client_prints refused os readable statuses h = absurd (h refl)
