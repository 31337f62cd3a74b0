-- ===== src/Storage/Handlers/Effects.antt =====
-- What a request can change, and when handleRequest throws (FileStorageServer.cpp).
use network_all_in_one.Prelude.{
  ◌≡◌, refl, inl, inr, true, false, take, drop, Bool-cases, Option-cases,
}
use network_all_in_one.Text.{Bytes, Result, ok, throws, npos, starts_with}
use network_all_in_one.Text.Search.{starts_with-length, substr_within}
use network_all_in_one.Kernel.{World, pure, lift, ◌>>=◌}
use network_all_in_one.Storage.Disk.{FileSystem}
use network_all_in_one.Storage.Request.{
  get_prefix, put_prefix, delete_prefix, parse_put, resolve_path,
}
use network_all_in_one.Storage.Handlers.{
  error_reply, read_file, get_file, write_open, write_file, put_file, remove_file, delete_file,
  handle_request,
}

module _ (fs : FileSystem) where
  -- Only the disk differs.
  abbrev pub OnlyDisk : World fs.Disk → World fs.Disk → Type 0
  OnlyDisk w w' = w' ≡ record w { disk = w'.disk }

  write_file-OnlyDisk :
      (path content : Bytes) (w : World fs.Disk) → OnlyDisk w (write_file fs path content w).1
  unfolding write_file write_open
  write_file-OnlyDisk path content w = elim (Option-cases (fs.open_write w.disk path)) [
    | inl e ↦ rw (e, write_file)
    | inr (opened, e) ↦ rw (e, write_file)
  ]

  put_file-OnlyDisk :
      (storage_path request : Bytes) (w : World fs.Disk) (r : Result (Bytes × Bytes))
      → parse_put request ≡ r
      → OnlyDisk w (put_file fs storage_path request w).1
  unfolding put_file ◌>>=◌ lift
  put_file-OnlyDisk storage_path request w (ok put) e =
      rw (e) (write_file-OnlyDisk (resolve_path storage_path put.0) put.1 w)
  put_file-OnlyDisk storage_path request w (throws x) e = rw e

  read_file-same : (path : Bytes) (w : World fs.Disk) → (read_file fs path w).1 ≡ w
  unfolding read_file
  read_file-same path w = elim (Option-cases (fs.read w.disk path)) [
    | inl e ↦ rw (e, read_file)
    | inr (c, e) ↦ rw (e, read_file)
  ]

  -- handleRequest goes one of four ways, by the command word.
  request_cases :
      (P : Result Bytes × World fs.Disk → Type 0) (storage_path request : Bytes) (w : World fs.Disk)
      → (starts_with request get_prefix ≡ true → P (get_file fs storage_path request w))
      → (starts_with request put_prefix ≡ true → P (put_file fs storage_path request w))
      → (starts_with request delete_prefix ≡ true → P (delete_file fs storage_path request w))
      → P (ok error_reply, w)
      → P (handle_request fs storage_path request w)
  unfolding handle_request pure
  request_cases P storage_path request w g p d u =
      elim (Bool-cases (starts_with request get_prefix)) [
        | inl e ↦ rw e (g e)
        | inr n ↦ rw n (elim (Bool-cases (starts_with request put_prefix)) [
          | inl e ↦ rw e (p e)
          | inr m ↦ rw m (elim (Bool-cases (starts_with request delete_prefix)) [
            | inl e ↦ rw e (d e)
            | inr k ↦ rw k u
          ])
        ])
      ]

  get_file-runs :
      (storage_path request : Bytes) (w : World fs.Disk)
      → starts_with request get_prefix ≡ true
      → get_file fs storage_path request w
        ≡ read_file fs (resolve_path storage_path (take npos (drop 4 request))) w
  unfolding get_file ◌>>=◌ lift
  get_file-runs storage_path request w h =
      rw (substr_within request 4 npos (starts_with-length request get_prefix h))

  delete_file-runs :
      (storage_path request : Bytes) (w : World fs.Disk)
      → starts_with request delete_prefix ≡ true
      → delete_file fs storage_path request w
        ≡ remove_file fs (resolve_path storage_path (take npos (drop 7 request))) w
  unfolding delete_file ◌>>=◌ lift
  delete_file-runs storage_path request w h =
      rw (substr_within request 7 npos (starts_with-length request delete_prefix h))

  remove_file-OnlyDisk : (path : Bytes) (w : World fs.Disk) → OnlyDisk w (remove_file fs path w).1
  unfolding remove_file
  remove_file-OnlyDisk path w = refl

  -- No request, whatever it holds, changes anything of the world but the disk: not the streams, not
  -- the descriptors, not what was sent.
  pub handle_request-OnlyDisk :
      (storage_path request : Bytes) (w : World fs.Disk)
      → OnlyDisk w (handle_request fs storage_path request w).1
  handle_request-OnlyDisk storage_path request w =
      request_cases (λ r. OnlyDisk w r.1) storage_path request w
        (λ g.
          rw (get_file-runs storage_path request w g)
            (rw (read_file-same (resolve_path storage_path (take npos (drop 4 request))) w)))
        (λ p. put_file-OnlyDisk storage_path request w (parse_put request) refl)
        (λ d.
          rw (delete_file-runs storage_path request w d)
            (remove_file-OnlyDisk (resolve_path storage_path (take npos (drop 7 request))) w))
        refl

  -- A request that begins neither with "PUT " nor with "DELETE " changes nothing, the disk included.
  pub handle_request_reads :
      (storage_path request : Bytes) (w : World fs.Disk)
      → starts_with request put_prefix ≡ false
      → starts_with request delete_prefix ≡ false
      → (handle_request fs storage_path request w).1 ≡ w
  handle_request_reads storage_path request w n m =
      request_cases (λ r. r.1 ≡ w) storage_path request w
        (λ g.
          rw (get_file-runs storage_path request w g)
            (read_file-same (resolve_path storage_path (take npos (drop 4 request))) w))
        (λ p. cc) (λ d. cc) refl

  -- An exception leaves the handler only as one of parse_put, and before anything was done.
  abbrev pub ThrowsBy : Bytes → World fs.Disk → Result Bytes × World fs.Disk → Type 0
  ThrowsBy request w (ok reply, w') = Unit
  ThrowsBy request w (throws x, w') =
      (starts_with request put_prefix ≡ true) × (parse_put request ≡ throws x) × (w' ≡ w)

  read_file-ThrowsBy :
      (path request : Bytes) (w v : World fs.Disk) → ThrowsBy request v (read_file fs path w)
  unfolding read_file
  read_file-ThrowsBy path request w v = elim (Option-cases (fs.read w.disk path)) [
    | inl e ↦ rw (e, read_file) tt
    | inr (c, e) ↦ rw (e, read_file) tt
  ]

  write_file-ThrowsBy :
      (path content request : Bytes) (w v : World fs.Disk)
      → ThrowsBy request v (write_file fs path content w)
  unfolding write_file write_open
  write_file-ThrowsBy path content request w v = elim (Option-cases (fs.open_write w.disk path)) [
    | inl e ↦ rw (e, write_file) tt
    | inr (opened, e) ↦ rw (e, write_file) tt
  ]

  put_file-ThrowsBy :
      (storage_path request : Bytes) (w : World fs.Disk)
      → starts_with request put_prefix ≡ true
      → (r : Result (Bytes × Bytes)) → parse_put request ≡ r
      → ThrowsBy request w (put_file fs storage_path request w)
  unfolding put_file ◌>>=◌ lift
  put_file-ThrowsBy storage_path request w s (ok put) e =
      rw e (write_file-ThrowsBy (resolve_path storage_path put.0) put.1 request w w)
  put_file-ThrowsBy storage_path request w s (throws x) e = rw e (s, e, refl)

  -- handleRequest throws only for a PUT request that parse_put cannot take apart, with parse_put's
  -- exception, and then it has changed nothing. Every other request gets a reply.
  pub handle_request-ThrowsBy :
      (storage_path request : Bytes) (w : World fs.Disk)
      → ThrowsBy request w (handle_request fs storage_path request w)
  handle_request-ThrowsBy storage_path request w =
      request_cases (ThrowsBy request w) storage_path request w
        (λ g.
          rw (get_file-runs storage_path request w g) (
            read_file-ThrowsBy (resolve_path storage_path (take npos (drop 4 request))) request w
              w))
        (λ p. put_file-ThrowsBy storage_path request w p (parse_put request) refl)
        (λ d. rw (delete_file-runs storage_path request w d) (unfold remove_file in tt)) tt
