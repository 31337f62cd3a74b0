-- ===== src/Storage/Spec/Stored.antt =====
-- What one client stores, a later one gets: a consequence of the specification of the service, and for
-- runSync (FileStorageServer.cpp).
use network_all_in_one.Prelude.{ℕ, true, ◌≡◌, ◌⊎◌, List, [], ◌∷◌, ◌++◌, Option}
use network_all_in_one.Text.{Bytes}
use network_all_in_one.Kernel.{World}
use network_all_in_one.Storage.Disk.{FileSystem, FileSystemLaws}
use network_all_in_one.Storage.Disk.Names.{FileNames}
use network_all_in_one.Storage.Handlers.{ok_reply, error_reply}
use network_all_in_one.Storage.Sender.Telling.{Talk, talk, Told}
use network_all_in_one.Storage.Server.{Server}
use network_all_in_one.Storage.Spec.{Command, get, put, delete}
use network_all_in_one.Storage.Spec.Handler.{view, ApartIn}
use network_all_in_one.Storage.Spec.Sessions.{Client}

module _ (Apart : Bytes → Bytes → Type 0) (p : Bytes) where
  -- A command that leaves the file `p` alone.
  abbrev pub Spares : Command → Type 0
  Spares (get q) = Unit
  Spares (put q numeral content) = Apart q p
  Spares (delete q) = Apart q p

-- What was sent since is sent behind what was sent before.
abbrev pub Later : Talk → Talk → Type 0
Later t t' = (between : List (ℕ × Bytes)) × (t'.sent ≡ t.sent ++ between)

module _ (fs : FileSystem) (laws : FileSystemLaws fs) (names : FileNames fs)
    (flushed : (d : fs.Disk) (p : Bytes) → (fs.flush d p).1 ≡ true) (s : Server) (p : Bytes) where
  abbrev pub ApartHere : Bytes → Bytes → Type 0
  ApartHere = ApartIn fs laws names s.storage_path flushed

  file_in : World fs.Disk → Option Bytes
  file_in w = view fs laws names s.storage_path flushed w.disk p

  -- No client touches the file.
  abbrev pub AllSpare : List Client → Type 0
  AllSpare [] = Unit
  AllSpare (c ∷ cs) = Spares ApartHere p c.command × AllSpare cs

  module _ (fd : ℕ) (stream : List (Option Bytes)) (content : Bytes) where
    abbrev pub reader : Client
    reader = record { fd = fd; command = get p; stream = stream }

    -- The last client has been told the content, behind what was sent up to `t`.
    abbrev pub ToldLast : Talk → World fs.Disk → Type 0
    ToldLast t v = (u : Talk) × Later t u × Told fd content u (talk v)

    module _ (writer_fd : ℕ) (writer_stream : List (Option Bytes)) (numeral : Bytes)
        (others : List Client) where
      abbrev pub writer : Client
      writer = record { fd = writer_fd; command = put p numeral content; stream = writer_stream }

      -- What was sent from `w` to `v`: first the writer was told "ERROR", and the rest behind it; or
      -- first the writer was told "OK", and last the reader was told the content.
      abbrev pub Written : World fs.Disk → World fs.Disk → Type 0
      Written w v =
          (t : Talk) × ((Told writer_fd error_reply (talk w) t × Later t (talk v))
            ⊎ (Told writer_fd ok_reply (talk w) t × ToldLast t v))
