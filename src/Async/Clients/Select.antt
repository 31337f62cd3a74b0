-- ===== src/Async/Clients/Select.antt =====
-- The program select/TCPClient_select.cpp of Lecture 2, a client that blocks.
pub mod Leaves
use network_all_in_one.Prelude.{
  ℕ, Bool, true, false, [], ◌∷◌, Option, none, some, length, if◌then◌else◌,
}
use network_all_in_one.Text.{Bytes, ℤ, pos, negsuc}
use network_all_in_one.Kernel.{
  Io, pure, lift, open_descriptor, try_call, close, recv, send, get_flags, ◌>>=◌, ◌>>◌,
}
use network_all_in_one.Storage.Request.{buffer_size}
use network_all_in_one.Storage.Server.{change_flags}
use network_all_in_one.Tcp.Echo.{NoData}
use network_all_in_one.Basic.{buffer_text}
use network_all_in_one.Basic.Clients.{Exit, silent}
use network_all_in_one.Async.Clients.{hello_client}

-- set_socket_non_blocking; main does not call it.
unfoldable pub set_socket_non_blocking : ℕ → Io NoData ℤ
unfolding change_flags
set_socket_non_blocking sockfd = do flags ← get_flags sockfd; change_flags sockfd false flags

unfoldable pub give_up : ℕ → Io NoData Exit
give_up sockfd = do close sockfd; pure (silent (negsuc 0))

-- Behind read. main ends without a return, which is 0, and without a close.
unfoldable pub show_message : ℕ → Option Bytes → Io NoData Exit
unfolding give_up buffer_text
show_message sockfd none = give_up sockfd
show_message sockfd (some bs) = do
  text ← lift (buffer_text (some bs))
  pure (record { code = pos 0; printed = text ∷ [] })

-- Behind connect. The result of send is not tested.
unfoldable pub say_hello : ℕ → Bool → Io NoData Exit
unfolding give_up show_message
say_hello sockfd false = give_up sockfd
say_hello sockfd true = do
  sent ← send sockfd hello_client (length hello_client)
  got ← recv sockfd buffer_size
  show_message sockfd got

-- Behind inet_pton.
unfoldable pub connect_select : ℕ → Bool → Io NoData Exit
unfolding give_up say_hello
connect_select sockfd false = give_up sockfd
connect_select sockfd true = try_call >>= say_hello sockfd

-- main
unfoldable pub select_client : Io NoData Exit
unfolding connect_select
select_client = do
  socket ← open_descriptor
  elim socket [ none ↦ pure (silent (negsuc 0)) | some sockfd ↦ try_call >>= connect_select sockfd ]
