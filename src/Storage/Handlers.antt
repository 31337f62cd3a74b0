-- ===== src/Storage/Handlers.antt =====
-- handleRequest, getFile, putFile and deleteFile of FileStorageServer.cpp.
pub mod Replies
pub mod Effects
use network_all_in_one.Prelude.{[], ◌∷◌, Option, none, some, if◌then◌else◌}
use network_all_in_one.Text.{Bytes, ok, npos, starts_with, substr}
use network_all_in_one.Kernel.{Io, pure, lift, ◌>>=◌}
use network_all_in_one.Storage.Disk.{FileSystem}
use network_all_in_one.Storage.Request.{
  get_prefix, put_prefix, delete_prefix, parse_put, resolve_path,
}

abbrev pub ok_reply : Bytes
ok_reply = b'O' ∷ b'K' ∷ []

abbrev pub error_reply : Bytes
error_reply = b'E' ∷ b'R' ∷ b'R' ∷ b'O' ∷ b'R' ∷ []

abbrev pub not_found : Bytes
not_found = b'N' ∷ b'O' ∷ b'T' ∷ b'_' ∷ b'F' ∷ b'O' ∷ b'U' ∷ b'N' ∷ b'D' ∷ []

module _ (fs : FileSystem) where
  open fs use {Disk, read, open_write, write, flush, remove}

  -- The stream of getFile: opened, read whole, and closed.
  unfoldable pub read_file : Bytes → Io Disk Bytes
  read_file path w = elim (read w.disk path) [
    | none ↦ (ok not_found, w)
    | some contents ↦ (ok contents, w)
  ]

  unfoldable pub get_file : Bytes → Bytes → Io Disk Bytes
  get_file storage_path request = do
    file_path ← lift (substr request 4 npos)
    read_file (resolve_path storage_path file_path)

  -- The stream of putFile: written, tested by good(), and closed on return.
  unfoldable pub write_open : Bytes → Bytes → Option Disk → Io Disk Bytes
  write_open path content none w = (ok error_reply, w)
  write_open path content (some opened) w =
      let (written, good) = write opened path content in
      let (closed, complete) = flush written path in
      (ok (if good then ok_reply else error_reply), record w { disk = closed })

  unfoldable pub write_file : Bytes → Bytes → Io Disk Bytes
  write_file path content w = write_open path content (open_write w.disk path) w

  unfoldable pub put_file : Bytes → Bytes → Io Disk Bytes
  put_file storage_path request = do
    put ← lift (parse_put request)
    write_file (resolve_path storage_path put.0) put.1

  unfoldable pub remove_file : Bytes → Io Disk Bytes
  remove_file path w =
      let (left, removed) = remove w.disk path in
      (ok (if removed then ok_reply else error_reply), record w { disk = left })

  unfoldable pub delete_file : Bytes → Bytes → Io Disk Bytes
  delete_file storage_path request = do
    file_path ← lift (substr request 7 npos)
    remove_file (resolve_path storage_path file_path)

  unfoldable pub handle_request : Bytes → Bytes → Io Disk Bytes
  handle_request storage_path request =
      if starts_with request get_prefix
      then get_file storage_path request
      else if starts_with request put_prefix
      then put_file storage_path request
      else if starts_with request delete_prefix
      then delete_file storage_path request
      else pure error_reply
