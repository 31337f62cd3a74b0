-- ===== src/Tcp/Echo/Leak.antt =====
-- The program of main.cpp leaves the accepted connection open (TCPServer.cpp).
use network_all_in_one.Prelude.{ℕ, ◌≡◌, refl, List, ◌∷◌, Option, some}
use network_all_in_one.Text.{ok, pos}
use network_all_in_one.Kernel.{World, pure, open_descriptor, next_count, try_call, close, ◌>>=◌}
use network_all_in_one.Storage.Server.{close_listener}
use network_all_in_one.Tcp.Echo.{
  NoData, create, bind_address, start_listening, accepted, server_accept, destroy, run_main,
}

-- Where socket() and accept() give two descriptors, main opens both, closes the listening socket
-- alone, and returns 0: the connection is still open when the server object is gone.
pub run_main-Leaves :
    (listener client : ℕ) (os : List (Option ℕ)) (w : World NoData)
    → w.opens ≡ some listener ∷ some client ∷ os
    → ((run_main w).0 ≡ ok (pos 0))
      × (((run_main w).1.opened ≡ client ∷ listener ∷ w.opened)
          × ((run_main w).1.closed ≡ listener ∷ w.closed))
unfolding run_main create bind_address start_listening accepted server_accept destroy pure
    open_descriptor next_count try_call close close_listener ◌>>=◌
run_main-Leaves listener client os w e = rw e (refl, (refl, refl))
