-- ===== src/Storage/Spec.antt =====
-- What the storage server promises, whatever its files stand on: a command reads or changes one file,
-- and the reply says which (the protocol in the comments of FileStorageServer.h and
-- FileStorageServer.cpp).
pub mod Handler
pub mod Clients
pub mod Sessions
pub mod Stored
pub mod Program
use network_all_in_one.Prelude.{◌≡◌, refl, List, [], ◌∷◌, Option, none, some}
use network_all_in_one.Text.{Bytes}
use network_all_in_one.Storage.Handlers.{ok_reply, error_reply, not_found}

-- The files as a client sees them: the content behind each path.
abbrev pub View : Type 0
View = Bytes → Option Bytes

-- A PUT carries its length field too.
pub data Command : Type 0 where
  get : Bytes → Command
  put : Bytes → Bytes → Bytes → Command
  delete : Bytes → Command

-- `Apart p q`: the paths denote different files.
module _ (Apart : Bytes → Bytes → Type 0) where
  abbrev pub Elsewhere : Bytes → View → View → Type 0
  Elsewhere p v v' = (q : Bytes) → Apart p q → v' q ≡ v q

  -- One file has changed, and no file that is apart from it.
  abbrev pub Changed : Bytes → Option Bytes → View → View → Type 0
  Changed p x v v' = (v' p ≡ x) × Elsewhere p v v'

  pub data Step (v v' : View) : Command → Bytes → Type 0 where
    found : {p content : Bytes} → v p ≡ some content → v' ≡ v → Step v v' (get p) content
    missing : {p : Bytes} → v p ≡ none → v' ≡ v → Step v v' (get p) not_found
    stored :
        {p numeral content : Bytes}
        → Changed p (some content) v v'
        → Step v v' (put p numeral content) ok_reply
    failed :
        {p numeral content : Bytes}
        → Elsewhere p v v'
        → Step v v' (put p numeral content) error_reply
    removed : {p : Bytes} → Changed p none v v' → Step v v' (delete p) ok_reply
    refused : {p : Bytes} → v' ≡ v → Step v v' (delete p) error_reply
