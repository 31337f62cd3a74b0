-- ===== src/Storage/Handlers/Replies.antt =====
-- What the requests do to the files, as later requests see it (FileStorageServer.cpp).
use network_all_in_one.Prelude.{
  ◌^◌, ◌≤◌, ◌<◌, ◌≡◌, refl, inl, inr, true, [], ◌∷◌, ◌++◌, some, none, arith, length, take,
  take_all, Option-cases,
}
use network_all_in_one.Text.{Bytes, ok, throws, invalid_argument, npos, int_max, starts_with}
use network_all_in_one.Text.Search.{Without, starts_with-append, substr_rest}
use network_all_in_one.Text.Numeral.{IsNumeral, value, stoi_numeral}
use network_all_in_one.Kernel.{World, lift, ◌>>=◌}
use network_all_in_one.Storage.Disk.{FileSystem, FileSystemLaws}
use network_all_in_one.Storage.Request.{
  get_prefix, put_prefix, delete_prefix, parse_put, resolve_path,
}
use network_all_in_one.Storage.Request.Wire.{put_wire, IsFramed, parse_put-put_wire}
use network_all_in_one.Storage.Request.Malformed.{parse_put_no_length, parse_put_no_content}
use network_all_in_one.Storage.Handlers.{
  ok_reply, not_found, read_file, get_file, write_open, write_file, put_file, remove_file,
  delete_file, handle_request,
}

abbrev pub get_wire : Bytes → Bytes
get_wire path = get_prefix ++ path

abbrev pub delete_wire : Bytes → Bytes
delete_wire path = delete_prefix ++ path

-- A PUT request whose length field is a numeral within `int` that covers the content: it is the
-- content's length, or more, where the upload was cut short.
pub record IsPut (path numeral content : Bytes) : Type 0 where
  pub framed : IsFramed path numeral content
  pub numeral_fine : IsNumeral numeral
  pub covered : length content ≤ value numeral
  pub within_int : value numeral ≤ int_max

pub parse_put_exact :
    (path numeral content : Bytes)
    → IsPut path numeral content
    → parse_put (put_wire path numeral content) ≡ ok (path, content)
parse_put_exact path numeral content p = rw (
  parse_put-put_wire path numeral content p.framed,
  stoi_numeral numeral p.numeral_fine p.within_int,
  take_all (value numeral) content p.covered,
)

module _ (fs : FileSystem) (storage_path path : Bytes) where
  pub handle-get :
      (w : World fs.Disk)
      → length path ≤ npos
      → handle_request fs storage_path (get_wire path) w
        ≡ read_file fs (resolve_path storage_path path) w
  unfolding handle_request get_file ◌>>=◌ lift
  handle-get w h =
      rw (starts_with-append get_prefix path, substr_rest 4 npos get_prefix path refl h)

  pub handle-delete :
      (w : World fs.Disk)
      → length path ≤ npos
      → handle_request fs storage_path (delete_wire path) w
        ≡ remove_file fs (resolve_path storage_path path) w
  unfolding handle_request delete_file ◌>>=◌ lift starts_with
  handle-delete w h = rw (substr_rest 7 npos delete_prefix path refl h)

  pub handle-put :
      (numeral content : Bytes) (w : World fs.Disk)
      → IsPut path numeral content
      → handle_request fs storage_path (put_wire path numeral content) w
        ≡ write_file fs (resolve_path storage_path path) content w
  unfolding handle_request put_file ◌>>=◌ lift starts_with
  handle-put numeral content w p = rw (parse_put_exact path numeral content p)

  handle-put_no_content :
      (numeral : Bytes) (w : World fs.Disk)
      → IsFramed path numeral []
      → IsNumeral numeral
      → value numeral ≤ int_max
      → handle_request fs storage_path (put_prefix ++ (path ++ b' ' ∷ numeral)) w
        ≡ write_file fs
            (resolve_path storage_path path)
            (take (value numeral) (put_prefix ++ (path ++ b' ' ∷ numeral)))
            w
  unfolding handle_request put_file ◌>>=◌ lift starts_with
  handle-put_no_content numeral w f n k = rw (
      parse_put_no_content path f.path_plain (omega (arith, f.size_fits)) numeral n k
        (omega (arith, f.size_fits)))

  -- A PUT request with no space behind its path is an exception, and nothing is written.
  pub handle-put_no_length :
      (w : World fs.Disk)
      → Without b' ' path
      → length path < 2 ^ 62
      → handle_request fs storage_path (put_prefix ++ path) w ≡ (throws invalid_argument, w)
  unfolding handle_request put_file ◌>>=◌ lift starts_with
  handle-put_no_length w plain small = rw (parse_put_no_length path plain small)

module _ (fs : FileSystem) (laws : FileSystemLaws fs) (path content : Bytes) where
  -- A write that is answered "OK", and that the closing of the stream completes.
  stores_opened :
      (w w' : World fs.Disk) (opened : fs.Disk)
      → ((d : fs.Disk) (p : Bytes) → (fs.flush d p).1 ≡ true)
      → fs.open_write w.disk path ≡ some opened
      → write_open fs path content (some opened) w ≡ (ok ok_reply, w')
      → fs.read w'.disk path ≡ some content
  unfolding write_open
  stores_opened w w' opened flushed e h =
      let good : (fs.write opened path content).1 ≡ true = ground (arith, h) in
      let left : (fs.flush (fs.write opened path content).0 path).0 ≡ w'.disk = ground (arith, h) in
      rw (← left) (
        laws.read-flush w.disk opened (fs.write opened path content).0 _ path content e
          (λ i. ((fs.write opened path content).0, good i))
          (λ i. (
            (fs.flush (fs.write opened path content).0 path).0,
            flushed (fs.write opened path content).0 path i,
          )))

  refused_reply : (w w' : World fs.Disk) → ¬ (write_open fs path content none w ≡ (ok ok_reply, w'))
  unfolding write_open
  refused_reply w w' h = ground (arith, h)

  stores :
      (w w' : World fs.Disk)
      → ((d : fs.Disk) (p : Bytes) → (fs.flush d p).1 ≡ true)
      → write_file fs path content w ≡ (ok ok_reply, w')
      → fs.read w'.disk path ≡ some content
  unfolding write_file
  stores w w' flushed h = elim (Option-cases (fs.open_write w.disk path)) [
    | inl e ↦ absurd (refused_reply w w' (rw e at h))
    | inr (opened, e) ↦ stores_opened w w' opened flushed e (rw e at h)
  ]

  removes :
      (w w' : World fs.Disk)
      → remove_file fs path w ≡ (ok ok_reply, w')
      → fs.read w'.disk path ≡ none
  unfolding remove_file
  removes w w' h =
      let done : (fs.remove w.disk path).1 ≡ true = ground (arith, h) in
      let left : (fs.remove w.disk path).0 ≡ w'.disk = ground (arith, h) in
      rw (← left) (
        laws.read-remove w.disk (fs.remove w.disk path).0 path
          (λ i. ((fs.remove w.disk path).0, done i)))

module _ (fs : FileSystem) (laws : FileSystemLaws fs) (storage_path path : Bytes) where
  found :
      (w : World fs.Disk) (content : Bytes)
      → length path ≤ npos
      → fs.read w.disk (resolve_path storage_path path) ≡ some content
      → handle_request fs storage_path (get_wire path) w ≡ (ok content, w)
  unfolding read_file
  found w content h e = rw (handle-get fs storage_path path w h) (rw (e, read_file))

  missing :
      (w : World fs.Disk)
      → length path ≤ npos
      → fs.read w.disk (resolve_path storage_path path) ≡ none
      → handle_request fs storage_path (get_wire path) w ≡ (ok not_found, w)
  unfolding read_file
  missing w h e = rw (handle-get fs storage_path path w h) (rw (e, read_file))

  -- The content of a PUT request that is answered "OK" is what a GET of the same path returns next,
  -- byte for byte, and the GET changes nothing. Conditions: no space in the path, a length field of
  -- digits that is an int and at least the content's length (so a content cut short is stored as it
  -- is), a request below 2 ^ 62 bytes, a file system with the laws of FileSystemLaws, and streams
  -- whose closing never fails.
  pub get_after_put :
      (numeral content : Bytes) (w w' : World fs.Disk)
      → IsPut path numeral content
      → ((d : fs.Disk) (p : Bytes) → (fs.flush d p).1 ≡ true)
      → handle_request fs storage_path (put_wire path numeral content) w ≡ (ok ok_reply, w')
      → handle_request fs storage_path (get_wire path) w' ≡ (ok content, w')
  get_after_put numeral content w w' p flushed h =
      found w' content (omega (arith, p.framed.size_fits)) (
        stores fs laws (resolve_path storage_path path) content w w' flushed
          (rw (handle-put fs storage_path path numeral content w p) at h))

  -- After a DELETE that was answered "OK" the next GET of the same path is answered "NOT_FOUND" and
  -- changes nothing, over a file system with the laws of FileSystemLaws.
  pub get_after_delete :
      (w w' : World fs.Disk)
      → length path ≤ npos
      → handle_request fs storage_path (delete_wire path) w ≡ (ok ok_reply, w')
      → handle_request fs storage_path (get_wire path) w' ≡ (ok not_found, w')
  get_after_delete w w' short h = missing w' short (
      removes fs laws (resolve_path storage_path path) [] w w'
        (rw (handle-delete fs storage_path path w short) at h))

  -- A PUT request that ends behind its length field and is answered "OK": the next GET of the path
  -- returns the beginning of that request itself, as many bytes as the field says. Conditions: no
  -- space in the path, a length field of digits that is an int, a request below 2 ^ 62 bytes, a file
  -- system with the laws of FileSystemLaws, and streams whose closing never fails.
  pub get_after_put_no_content :
      (numeral : Bytes) (w w' : World fs.Disk)
      → IsFramed path numeral []
      → IsNumeral numeral
      → value numeral ≤ int_max
      → ((d : fs.Disk) (p : Bytes) → (fs.flush d p).1 ≡ true)
      → handle_request fs storage_path (put_prefix ++ (path ++ b' ' ∷ numeral)) w
        ≡ (ok ok_reply, w')
      → handle_request fs storage_path (get_wire path) w'
        ≡ (ok (take (value numeral) (put_prefix ++ (path ++ b' ' ∷ numeral))), w')
  get_after_put_no_content numeral w w' f n k flushed h = found w' _ (omega (arith, f.size_fits)) (
      stores fs laws (resolve_path storage_path path) _ w w' flushed
        (rw (handle-put_no_content fs storage_path path numeral w f n k) at h))
