-- ===== src/Async/Clients.antt =====
-- What the clients of C++/Lecture 2, Async IO with selct, poll, epoll have in common: the message, what
-- connect answers, and the buffer on the stack that the poll and the epoll client print.
pub mod Select
pub mod Poll
pub mod Epoll
use network_all_in_one.Prelude.{
  List, [], ◌∷◌, ◌++◌, Option, none, some, length, drop, ◌==◌, if◌then◌else◌,
}
use network_all_in_one.Text.{Bytes, Result, ok, throws, bad_buffer, ◌>>=◌}
use network_all_in_one.Async.Select.{c_string}

-- "Hello from client!"
abbrev pub hello_client : Bytes
hello_client =
    b'H' ∷ b'e' ∷ b'l' ∷ b'l' ∷ b'o' ∷ b' ' ∷ b'f' ∷ b'r' ∷ b'o' ∷ b'm' ∷ b' ' ∷ b'c' ∷ b'l' ∷ b'i'
    ∷ b'e' ∷ b'n' ∷ b't' ∷ b'!' ∷ []

-- connect on a socket that does not block: success, errno EINPROGRESS, or another failure.
pub data Connection : Type 0 where
  connected in_progress refused : Connection

-- A buffer that nobody has cleared, as a string of C: behind the bytes that read has put there stands
-- what the memory held before (`stack`). With no zero byte in it the string is read past its end,
-- which is undefined.
unfoldable pub stack_text : Bytes → Bytes → Result Bytes
unfolding c_string
stack_text stack bs =
    let buffer = bs ++ drop (length bs) stack in
    if length (c_string buffer) == length buffer then throws bad_buffer else ok (c_string buffer)

-- What is printed behind a read: nothing at the end of the stream or behind a failure.
unfoldable pub show_reply : Bytes → Option Bytes → Result (List Bytes)
unfolding stack_text
show_reply stack none = ok []
show_reply stack (some []) = ok []
show_reply stack (some (b ∷ bs)) = stack_text stack (b ∷ bs) >>= λ text. ok (text ∷ [])
