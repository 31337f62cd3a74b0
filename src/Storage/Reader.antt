-- ===== src/Storage/Reader.antt =====
-- readRequest of FileStorageServer.cpp: how one request is gathered from the stream.
pub mod Framing
pub mod Gathering
pub mod Bounds
use network_all_in_one.Prelude.{
  ℕ, not, List, [], ◌∷◌, ◌++◌, Option, none, some, length, take, ◌==◌, if◌then◌else◌,
}
use network_all_in_one.Text.{
  Bytes, ok, ℤ, npos, add_size, sub_size, to_int, ltb_ℤ, find, starts_with, stoi,
}
use network_all_in_one.Kernel.{Io, pure, lift, recv, ◌>>=◌}
use network_all_in_one.Storage.Request.{buffer_size, put_prefix, length_field}

-- The loop of readRequest, over what recv returns call by call: it goes on while the content is
-- short, and ends early if the stream ends or fails.
unfoldable pub receive_from : ℤ → ℕ → Bytes → List (Option Bytes) → Bytes × List (Option Bytes)
receive_from file_length start request [] = (request, [])
receive_from file_length start request (none ∷ rs) =
    if ltb_ℤ (to_int (sub_size (length request) start)) file_length
    then (request, rs)
    else (request, none ∷ rs)
receive_from file_length start request (some [] ∷ rs) =
    if ltb_ℤ (to_int (sub_size (length request) start)) file_length
    then (request, rs)
    else (request, some [] ∷ rs)
receive_from file_length start request (some (b ∷ bs) ∷ rs) =
    let more = receive_from file_length start (request ++ take buffer_size (b ∷ bs)) rs in
    if ltb_ℤ (to_int (sub_size (length request) start)) file_length
    then more
    else (request, some (b ∷ bs) ∷ rs)

module _ {D : Type 0} where
  unfoldable pub receive_until : ℤ → ℕ → Bytes → Io D Bytes
  unfolding receive_from
  receive_until file_length start request w =
      let (whole, rs) = receive_from file_length start request w.recvs in
      (ok whole, record w { recvs = rs })

  -- readRequest after its first recv, which brought `request`.
  unfoldable pub continue_request : Bytes → Io D Bytes
  continue_request request =
      if not (starts_with request put_prefix)
      then pure request
      else let path_end = find request b' ' 4 in
        if path_end == npos
        then pure request
        else let length_end = find request b' ' (add_size path_end 1) in
          if length_end == npos then pure request else do
            field ← lift (length_field request path_end length_end)
            file_length ← lift (stoi field)
            receive_until file_length (add_size length_end 1) request

  unfoldable pub begin_request : Option Bytes → Io D Bytes
  begin_request none = pure []
  begin_request (some []) = pure []
  begin_request (some (b ∷ bs)) = continue_request (b ∷ bs)

  -- readRequest
  unfoldable pub read_request : ℕ → Io D Bytes
  read_request fd = do got ← recv fd buffer_size; begin_request got
