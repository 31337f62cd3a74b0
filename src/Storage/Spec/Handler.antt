-- ===== src/Storage/Spec/Handler.antt =====
-- handleRequest (FileStorageServer.cpp) does what the specification of the service allows.
use network_all_in_one.Prelude.{
  ◌≤◌, ◌≡◌, refl, ap, ◌∙◌, inl, inr, true, false, Bool, Option-cases, some, length, if◌then◌else◌,
}
use network_all_in_one.Text.{Bytes, Result, ok, throws, npos}
use network_all_in_one.Kernel.{World}
use network_all_in_one.Storage.Disk.{FileSystem, FileSystemLaws}
use network_all_in_one.Storage.Disk.Names.{FileNames}
use network_all_in_one.Storage.Request.{resolve_path}
use network_all_in_one.Storage.Request.Wire.{put_wire}
use network_all_in_one.Storage.Handlers.{
  ok_reply, error_reply, read_file, write_open, write_file, remove_file, handle_request,
}
use network_all_in_one.Storage.Handlers.Replies.{
  get_wire, delete_wire, IsPut, handle-get, handle-put, handle-delete,
}
use network_all_in_one.Storage.Spec.{
  View, Command, get, put, delete, Step, found, missing, stored, failed, removed, refused,
  Elsewhere,
}

-- The bytes of a command on the wire, and what makes them a request of the protocol.
abbrev pub wire : Command → Bytes
wire (get path) = get_wire path
wire (put path numeral content) = put_wire path numeral content
wire (delete path) = delete_wire path

abbrev pub IsCommand : Command → Type 0
IsCommand (get path) = length path ≤ npos
IsCommand (put path numeral content) = IsPut path numeral content
IsCommand (delete path) = length path ≤ npos

module _ (fs : FileSystem) (laws : FileSystemLaws fs) (names : FileNames fs) (storage_path : Bytes)
    (flushed : (d : fs.Disk) (p : Bytes) → (fs.flush d p).1 ≡ true) where
  -- The files of a storage directory.
  abbrev pub view : fs.Disk → View
  view d path = fs.read d (resolve_path storage_path path)

  abbrev pub ApartIn : Bytes → Bytes → Type 0
  ApartIn p q = names.Apart (resolve_path storage_path p) (resolve_path storage_path q)

  -- What a request leaves behind: a reply and a step of the specification, and never an exception.
  abbrev pub Refines : Command → World fs.Disk → Result Bytes × World fs.Disk → Type 0
  Refines c w (ok reply, w') =
      (w' ≡ record w { disk = w'.disk }) × Step ApartIn (view w.disk) (view w'.disk) c reply
  Refines c w (throws x, w') = ⊥

  get-Refines :
      (path : Bytes) (w : World fs.Disk)
      → Refines (get path) w (read_file fs (resolve_path storage_path path) w)
  unfolding read_file
  get-Refines path w = elim (Option-cases (view w.disk path)) [
    | inl e ↦ rw (e, read_file) (refl, missing e refl)
    | inr (content, e) ↦ rw (e, read_file) (refl, found e refl)
  ]

  module _ (path : Bytes) (w : World fs.Disk) where
    file : Bytes
    file = resolve_path storage_path path

    remove_step :
        (removal : Bool)
        → (fs.remove w.disk file).1 ≡ removal
        → Step ApartIn
            (view w.disk)
            (view (fs.remove w.disk file).0)
            (delete path)
            (if removal then ok_reply else error_reply)
    unfolding file
    remove_step true e = removed (
      laws.read-remove w.disk (fs.remove w.disk file).0 file
          (λ i. ((fs.remove w.disk file).0, e i)),
      λ q apart. names.read-remove w.disk file (resolve_path storage_path q) apart,
    )
    remove_step false e = refused (
        ap view (
          laws.remove_refused w.disk (fs.remove w.disk file).0 file
            (λ i. ((fs.remove w.disk file).0, e i))))

    delete-Refines : Refines (delete path) w (remove_file fs file w)
    unfolding remove_file
    delete-Refines = (refl, remove_step (fs.remove w.disk file).1 refl)

    module _ (numeral content : Bytes) where
      -- The disk behind the writing and closing of an opened file.
      written : fs.Disk → fs.Disk
      written opened = (fs.flush (fs.write opened file content).0 file).0

      written-Elsewhere :
          (opened : fs.Disk)
          → fs.open_write w.disk file ≡ some opened
          → Elsewhere ApartIn path (view w.disk) (view (written opened))
      unfolding file written
      written-Elsewhere opened e q apart =
          names.read-flush (fs.write opened file content).0 file (resolve_path storage_path q) apart
          ∙ names.read-write opened file (resolve_path storage_path q) content apart
          ∙ names.read-open w.disk opened file (resolve_path storage_path q) apart e

      write_step :
          (opened : fs.Disk) (good : Bool)
          → fs.open_write w.disk file ≡ some opened
          → (fs.write opened file content).1 ≡ good
          → Step ApartIn
              (view w.disk)
              (view (written opened))
              (put path numeral content)
              (if good then ok_reply else error_reply)
      unfolding file written
      write_step opened true e g = stored (
        laws.read-flush w.disk opened (fs.write opened file content).0 (written opened) file content
            e (λ i. ((fs.write opened file content).0, g i))
            (λ i. (written opened, flushed (fs.write opened file content).0 file i)),
        written-Elsewhere opened e,
      )
      write_step opened false e g = failed (written-Elsewhere opened e)

      put-Refines : Refines (put path numeral content) w (write_file fs file content w)
      unfolding write_file write_open written
      put-Refines = elim (Option-cases (fs.open_write w.disk file)) [
        | inl e ↦ rw (e, write_open) (refl, failed (λ q apart. refl))
        | inr (opened, e) ↦
            rw (e, write_open) (refl, write_step opened (fs.write opened file content).1 e refl)
      ]

  -- handleRequest, given the bytes of a command, returns a reply, and reply and files follow the
  -- specification: a GET finds the content of its file or none and changes nothing; a PUT that is
  -- answered "OK" has stored its content, and one that is answered "ERROR" has changed that file at
  -- most; a DELETE that is answered "OK" has removed its file, and one that is answered "ERROR" has
  -- changed nothing; no file that is apart from the command's is changed, and nothing but the disk.
  -- Conditions: a command of the protocol (IsCommand), a file system with the laws of FileSystemLaws
  -- and FileNames, and streams whose closing never fails.
  pub handle_request-Refines :
      (c : Command) (w : World fs.Disk)
      → IsCommand c
      → Refines c w (handle_request fs storage_path (wire c) w)
  unfolding file
  handle_request-Refines (get path) w h =
      rw (handle-get fs storage_path path w h) (get-Refines path w)
  handle_request-Refines (put path numeral content) w h =
      rw (handle-put fs storage_path path numeral content w h) (put-Refines path w numeral content)
  handle_request-Refines (delete path) w h =
      rw (handle-delete fs storage_path path w h) (delete-Refines path w)
