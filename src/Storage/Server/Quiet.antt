-- ===== src/Storage/Server/Quiet.antt =====
-- Serving a client opens and closes no descriptor (FileStorageServer.cpp).
use network_all_in_one.Prelude.{ℕ, sym, subst, List, [], ◌∷◌, Option, none, some, Bool}
use network_all_in_one.Text.{Bytes, ℤ}
use network_all_in_one.Kernel.Actions.{
  Keeps, Ledger, action_rules, Keeps-bind, send-Ledger, get_flags-Ledger,
}
use network_all_in_one.Kernel.Balance.{IsQuiet}
use network_all_in_one.Storage.Disk.{FileSystem}
use network_all_in_one.Storage.Reader.{receive_until, continue_request, begin_request, read_request}
use network_all_in_one.Storage.Handlers.{handle_request}
use network_all_in_one.Storage.Handlers.Effects.{handle_request-OnlyDisk}
use network_all_in_one.Storage.Sender.{send_all}
use network_all_in_one.Storage.Sender.Keeping.{send_all-Keeps}
use network_all_in_one.Storage.Server.{
  respond, serve, change_flags, set_socket_blocking, set_server_blocking,
}

module _ {D : Type 0} {o c : List ℕ} where
  receive_until-Ledger :
      (n : ℤ) (start : ℕ) (request : Bytes)
      → Keeps {D = D} (Ledger o c) (receive_until n start request)
  unfolding receive_until
  receive_until-Ledger n start request = record { at = λ w h. h }

  continue_request-Ledger :
      (request : Bytes) → Keeps {D = D} (Ledger o c) (continue_request request)
  unfolding continue_request
  continue_request-Ledger request = search (action_rules, receive_until-Ledger) depth 10

  begin_request-Ledger : (got : Option Bytes) → Keeps {D = D} (Ledger o c) (begin_request got)
  unfolding begin_request
  begin_request-Ledger none = search action_rules
  begin_request-Ledger (some []) = search action_rules
  begin_request-Ledger (some (b ∷ bs)) = continue_request-Ledger (b ∷ bs)

  read_request-Ledger : (fd : ℕ) → Keeps {D = D} (Ledger o c) (read_request fd)
  unfolding read_request
  read_request-Ledger fd = search (action_rules, begin_request-Ledger)

  send_all-Ledger : (fd : ℕ) (response : Bytes) → Keeps {D = D} (Ledger o c) (send_all fd response)
  send_all-Ledger = send_all-Keeps (Ledger o c) send-Ledger

module _ {D : Type 0} {o c : List ℕ} (blocking : Bool) where
  pub change_flags-Ledger :
      (fd : ℕ) (r : Option ℕ) → Keeps {D = D} (Ledger o c) (change_flags fd blocking r)
  unfolding change_flags
  change_flags-Ledger fd none = search action_rules
  change_flags-Ledger fd (some flags) = search action_rules

  set_server_blocking-Ledger :
      (fd : Option ℕ) → Keeps {D = D} (Ledger o c) (set_server_blocking fd blocking)
  unfolding set_server_blocking set_socket_blocking
  set_server_blocking-Ledger none = search action_rules
  set_server_blocking-Ledger (some fd) =
      Keeps-bind _ _ (get_flags-Ledger fd) (change_flags-Ledger fd)

module _ (fs : FileSystem) {o c : List ℕ} (storage_path : Bytes) where
  handle_request-Ledger :
      (request : Bytes) → Keeps {D = fs.Disk} (Ledger o c) (handle_request fs storage_path request)
  handle_request-Ledger request = record {
    at = λ w h. subst (Ledger o c) (sym (handle_request-OnlyDisk fs storage_path request w)) h;
  }

  respond-Ledger :
      (fd : ℕ) (request : Bytes)
      → Keeps {D = fs.Disk} (Ledger o c) (respond fs storage_path fd request)
  unfolding respond
  respond-Ledger fd [] = search action_rules
  respond-Ledger fd (b ∷ bs) = search (action_rules, handle_request-Ledger, send_all-Ledger)

  serve-Ledger : (fd : ℕ) → Keeps {D = fs.Disk} (Ledger o c) (serve fs storage_path fd)
  unfolding serve
  serve-Ledger fd = search (action_rules, read_request-Ledger, respond-Ledger)

pub serve-IsQuiet :
    (fs : FileSystem) (storage_path : Bytes) (fd : ℕ) → IsQuiet (serve fs storage_path fd)
serve-IsQuiet fs storage_path fd o c = serve-Ledger fs storage_path fd

pub set_server_blocking-IsQuiet :
    {D : Type 0} (fd : Option ℕ) (blocking : Bool)
    → IsQuiet {D = D} (set_server_blocking fd blocking)
set_server_blocking-IsQuiet fd blocking o c = set_server_blocking-Ledger blocking fd
