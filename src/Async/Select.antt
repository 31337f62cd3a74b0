-- ===== src/Async/Select.antt =====
-- The program select/TCPServer_select.cpp: thirty slots for clients, 0 in a free one.
pub mod Slots
pub mod Full
pub mod Cut
use network_all_in_one.Prelude.{
  ℕ, zero, suc, ◌+◌, false, List, [], ◌∷◌, Option, none, some, contains, length, ltb, ◌==◌,
  if◌then◌else◌,
}
use network_all_in_one.Text.{Bytes, ℤ, negsuc, Result, bad_buffer}
use network_all_in_one.Kernel.{
  Io, pure, lift, throw, open_descriptor, try_call, close, recv, send, ◌>>=◌, ◌>>◌,
}
use network_all_in_one.Storage.Request.{buffer_size}
use network_all_in_one.Storage.Loops.{Wait, interrupted, failed, ready, set_fds, max_fd, selected}
use network_all_in_one.Tcp.Echo.{NoData}

-- How main stands: it would wait once more, has returned a number, or has called exit.
pub data Ending : Type 0 where
  still : List ℕ → Ending
  came_back : ℤ → Ending
  quit : Ending

-- std::vector<int> client_sockets(max_clients, 0)
abbrev pub free_slots : ℕ → List ℕ
free_slots zero = []
free_slots (suc n) = 0 ∷ free_slots n

abbrev pub max_clients : ℕ
max_clients = 30

-- The clients in the slots: those that are not 0.
unfoldable pub used : List ℕ → List ℕ
used [] = []
used (sd ∷ slots) = let rest = used slots in if sd == 0 then rest else sd ∷ rest

-- The set that a round builds.
unfoldable pub slot_set : ℕ → List ℕ → Result (List ℕ)
unfolding set_fds used
slot_set master slots = set_fds (master ∷ used slots)

-- std::find(client_sockets.begin(), client_sockets.end(), 0), and the assignment to what it finds.
unfoldable pub store_free : ℕ → List ℕ → List ℕ
store_free new [] = []
store_free new (sd ∷ slots) =
    let rest = store_free new slots in if sd == 0 then new ∷ slots else sd ∷ rest

-- A failed accept exits: `none`.
unfoldable pub store_socket : List ℕ → Option ℕ → Option (List ℕ)
unfolding store_free
store_socket slots none = none
store_socket slots (some new) = some (store_free new slots)

unfoldable pub accept_slot : ℕ → List ℕ → List ℕ → Io NoData (Option (List ℕ))
unfolding store_socket
accept_slot master slots set =
    if contains master set
    then (do client ← open_descriptor; pure (store_socket slots client))
    else pure (some slots)

-- The buffer as a string of C: it ends at the first zero byte.
unfoldable pub c_string : Bytes → Bytes
c_string [] = []
c_string (b ∷ bs) = let rest = c_string bs in if b == 0 then [] else b ∷ rest

-- What a slot holds behind a read of its socket. `buffer[valread] = '\0'` writes outside the buffer
-- where the read failed (-1) or filled it, which is undefined.
unfoldable pub echo_string : ℕ → Option Bytes → Io NoData ℕ
unfolding c_string
echo_string sd none = throw bad_buffer
echo_string sd (some []) = do close sd; pure 0
echo_string sd (some (b ∷ bs)) =
    if ltb (length (b ∷ bs)) buffer_size
    then (do n ← send sd (c_string (b ∷ bs)) (length (c_string (b ∷ bs))); pure sd)
    else throw bad_buffer

-- The pass over the slots, in place.
unfoldable pub slot_pass : List ℕ → List ℕ → Io NoData (List ℕ)
unfolding echo_string
slot_pass set [] = pure []
slot_pass set (sd ∷ slots) =
    let rest = slot_pass set slots in
    if contains sd set
    then (do got ← recv sd buffer_size; slot ← echo_string sd got; left ← rest; pure (slot ∷ left))
    else (do left ← rest; pure (sd ∷ left))

unfoldable pub serve_slots : List ℕ → Option (List ℕ) → Io NoData (Option (List ℕ))
unfolding slot_pass
serve_slots set none = pure none
serve_slots set (some slots) = do left ← slot_pass set slots; pure (some left)

-- A round behind select, with what it left in the set.
unfoldable pub slot_round : ℕ → List ℕ → List ℕ → Io NoData (Option (List ℕ))
unfolding accept_slot serve_slots
slot_round master slots set = do accepted ← accept_slot master slots set; serve_slots set accepted

-- A select that fails leaves the set as it was, and the round goes on with all of it.
unfoldable pub slot_answer : ℕ → List ℕ → List ℕ → Wait (List ℕ) → List ℕ
slot_answer master slots set interrupted = set
slot_answer master slots set failed = set
slot_answer master slots set (ready report) = selected (max_fd master slots + 1) report set

unfoldable pub slot_loop : List (Wait (List ℕ)) → ℕ → List ℕ → Io NoData Ending
unfolding slot_set slot_round slot_answer
slot_loop [] master slots = pure (still slots)
slot_loop (wait ∷ waits) master slots = do
  set ← lift (slot_set master slots)
  next ← slot_round master slots (slot_answer master slots set wait)
  elim next [ none ↦ pure quit | some left ↦ slot_loop waits master left ]

unfoldable pub listen_select : List (Wait (List ℕ)) → ℕ → Io NoData Ending
unfolding slot_loop
listen_select waits master = do
  reuse ← try_call
  if reuse
      then (do
        bound ← try_call
        listening ← if bound then try_call else pure false
        if listening then slot_loop waits master (free_slots max_clients) else pure quit)
      else pure (came_back (negsuc 0))

-- main: the failure of socket() is tested as 0; for -1 the first setsockopt fails.
unfoldable pub select_main : List (Wait (List ℕ)) → Io NoData Ending
unfolding listen_select
select_main waits = do
  socket ← open_descriptor
  elim socket [
    | none ↦ pure (came_back (negsuc 0))
    | some master ↦ if master == 0 then pure (came_back (negsuc 0)) else listen_select waits master
  ]
