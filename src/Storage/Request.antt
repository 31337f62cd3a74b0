-- ===== src/Storage/Request.antt =====
-- Requests of the storage protocol: how putFile takes one apart, and where resolvePath puts a file
-- (FileStorageServer.cpp).
pub mod Wire
pub mod Malformed
pub mod Paths
use network_all_in_one.Prelude.{
  ℕ, ◌+◌, Bool, true, false, [], ◌∷◌, ◌++◌, ◌||◌, ◌==◌, if◌then◌else◌, bytes_eq,
}
use network_all_in_one.Text.{
  Bytes, Result, ok, add_size, sub_size, of_int, find, substr, stoi, ◌>>=◌,
}

-- BUFFER_SIZE
abbrev pub buffer_size : ℕ
buffer_size = 1024

abbrev pub get_prefix : Bytes
get_prefix = b'G' ∷ b'E' ∷ b'T' ∷ b' ' ∷ []

abbrev pub put_prefix : Bytes
put_prefix = b'P' ∷ b'U' ∷ b'T' ∷ b' ' ∷ []

abbrev pub delete_prefix : Bytes
delete_prefix = b'D' ∷ b'E' ∷ b'L' ∷ b'E' ∷ b'T' ∷ b'E' ∷ b' ' ∷ []

-- The start of the length field and its size, as both functions compute them.
unfoldable pub length_field : Bytes → ℕ → ℕ → Result Bytes
length_field request path_end length_end =
    substr request (add_size path_end 1) (sub_size (sub_size length_end path_end) 1)

-- The first statements of putFile: the path and the content of a request.
unfoldable pub parse_put : Bytes → Result (Bytes × Bytes)
unfolding length_field
parse_put request = do
  let path_end = find request b' ' 4
  let length_end = find request b' ' (add_size path_end 1)
  path ← substr request 4 (sub_size path_end 4)
  field ← length_field request path_end length_end
  file_length ← stoi field
  content ← substr request (add_size length_end 1) (of_int file_length)
  ok (path, content)

unfoldable pub last_byte : ℕ → Bytes → ℕ
last_byte b [] = b
last_byte b (c ∷ cs) = last_byte c cs

unfoldable pub ends_in_slash : Bytes → Bool
unfolding last_byte
ends_in_slash [] = false
ends_in_slash (b ∷ bs) = last_byte b bs == b'/'

unfoldable pub is_empty : Bytes → Bool
is_empty [] = true
is_empty (b ∷ bs) = false

-- resolvePath
unfoldable pub resolve_path : Bytes → Bytes → Bytes
unfolding ends_in_slash is_empty
resolve_path storage_path file_path =
    if is_empty storage_path || bytes_eq storage_path (b'.' ∷ [])
    then file_path
    else if ends_in_slash storage_path
    then storage_path ++ file_path
    else storage_path ++ (b'/' ∷ file_path)
