-- ===== src/Storage/Spec/Sessions/Series.antt =====
-- A run of a loop of FileStorageServer.cpp is a series of answers of the waiting call: interruptions,
-- and reports of some type T.
use network_all_in_one.Prelude.{ℕ, List, [], ◌∷◌, ◌++◌, Option, none, some}
use network_all_in_one.Text.{Bytes}
use network_all_in_one.Storage.Loops.{Wait, interrupted, ready}
use network_all_in_one.Storage.Spec.Sessions.{Client, streams}

-- What the kernel answers.
abbrev pub answers : {T A : Type 0} → (T → A) → List (Option T) → List (Wait A)
answers report_of [] = []
answers report_of (none ∷ ts) = interrupted ∷ answers report_of ts
answers report_of (some t ∷ ts) = ready (report_of t) ∷ answers report_of ts

-- The clients that ask, in order; their bytes, and what accept returns, with what is left behind.
module _ {T : Type 0} (asking_of : T → List Client) where
  abbrev pub all_asking : List (Option T) → List Client
  all_asking [] = []
  all_asking (none ∷ ts) = all_asking ts
  all_asking (some t ∷ ts) = asking_of t ++ all_asking ts

  abbrev pub all_streams : List (Option T) → List (Option Bytes) → List (Option Bytes)
  all_streams [] more = more
  all_streams (none ∷ ts) more = all_streams ts more
  all_streams (some t ∷ ts) more = streams (asking_of t) ++ all_streams ts more

abbrev pub all_arrivals :
    {T : Type 0} → (T → List (Option ℕ)) → List (Option T) → List (Option ℕ) → List (Option ℕ)
all_arrivals arrivals_of [] os = os
all_arrivals arrivals_of (none ∷ ts) os = all_arrivals arrivals_of ts os
all_arrivals arrivals_of (some t ∷ ts) os = arrivals_of t ++ all_arrivals arrivals_of ts os

-- The clients that are held behind the run, by what a report makes of them.
abbrev pub clients_behind : {T : Type 0} → (T → List ℕ → List ℕ) → List (Option T) → List ℕ → List ℕ
clients_behind left_of [] clients = clients
clients_behind left_of (none ∷ ts) clients = clients_behind left_of ts clients
clients_behind left_of (some t ∷ ts) clients = clients_behind left_of ts (left_of t clients)
