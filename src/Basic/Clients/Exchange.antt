-- ===== src/Basic/Clients/Exchange.antt =====
-- The clients and the servers of Lecture 1 with each other (TCP/SyncTcpClient.cpp with
-- TCP/SyncTcpServer.cpp, and UDP/SyncUdpClient.cpp with UDP/SyncUdpServer.cpp).
use network_all_in_one.Prelude.{
  ℕ, ◌≤◌, ◌≡◌, refl, sym, ap, ◌∙◌, Bool, true, Bool-cases, inl, inr, min, List, [], ◌∷◌, ◌++◌,
  Option, some, arith, length, take, take_all, ◌==◌,
}
use network_all_in_one.Text.{Bytes, pos, ok}
use network_all_in_one.Kernel
use network_all_in_one.Kernel.{
  World, pure, lift, recv, send, close, open_descriptor, try_call, next_bytes, next_count,
  next_status,
}
use network_all_in_one.Storage.Request.{buffer_size}
use network_all_in_one.Storage.Sender.Delivery.{received_by, received_by_one}
use network_all_in_one.Tcp.Echo.{NoData}
use network_all_in_one.Async.Select.{c_string}
use network_all_in_one.Basic.{
  echo_prefix, buffer_text, answer_client, accept_client, serve_bound, tcp_main, answered,
  echo_datagram, serve_datagram, udp_main,
}
use network_all_in_one.Basic.Clients.{
  silent, hello_world, talk, connect_tcp, tcp_client, hello_udp, close_with, after_recvfrom,
  after_sendto, send_datagram, udp_client,
}

-- A run in which every call succeeds, the kernel takes up to `room` bytes, and `got` arrives.
abbrev pub smooth : List (Option ℕ) → List Bool → ℕ → Bytes → World NoData → World NoData
smooth fds statuses room got w = record w {
  opens = fds;
  statuses = statuses;
  sends = some room ∷ [];
  recvs = some got ∷ [];
  sent = [];
}

module _ (sock server_fd client_fd client_room server_room : ℕ) (client server : World NoData) where
  abbrev tcp_client_world : Bytes → World NoData
  tcp_client_world reply = smooth (some sock ∷ []) (true ∷ []) client_room reply client

  abbrev tcp_server_world : Bytes → World NoData
  tcp_server_world request =
      smooth (some server_fd ∷ some client_fd ∷ []) (true ∷ true ∷ []) server_room request server

  -- The client and the server have talked to each other: what arrives at the one is what the other
  -- sends.
  pub record IsTcpExchange (request reply : Bytes) : Type 0 where
    pub requested : request ≡ received_by sock (tcp_client (tcp_client_world reply)).1.sent
    pub replied : reply ≡ received_by client_fd (tcp_main (tcp_server_world request)).1.sent

  module _ (fits : 12 ≤ client_room) (server_fits : 18 ≤ server_room) where
    tcp_client_sends :
        (reply : Bytes) → (tcp_client (tcp_client_world reply)).1.sent ≡ (sock, hello_world) ∷ []
    unfolding tcp_client connect_tcp talk buffer_text open_descriptor try_call send recv lift close
        pure next_status next_count next_bytes Kernel.◌>>=◌
    tcp_client_sends reply =
        let whole = take_all (min client_room 12) hello_world (omega arith) in
        elim (Bool-cases (length (c_string (take buffer_size reply)) == buffer_size)) [
          | inl e ↦ rw (e, whole) refl
          | inr e ↦ rw (e, whole) refl
        ]

    tcp_client_prints :
        (tcp_client (tcp_client_world (echo_prefix ++ hello_world))).0
        ≡ ok (record { code = pos 0; printed = (echo_prefix ++ hello_world) ∷ [] })
    unfolding tcp_client connect_tcp talk buffer_text c_string open_descriptor try_call send recv
        lift close pure next_status next_count next_bytes Kernel.◌>>=◌
    tcp_client_prints = refl

    tcp_main_replies :
        ((tcp_main (tcp_server_world hello_world)).0 ≡ ok (pos 0))
        × ((tcp_main (tcp_server_world hello_world)).1.sent
            ≡ (client_fd, echo_prefix ++ hello_world) ∷ [])
    unfolding tcp_main serve_bound accept_client answer_client buffer_text c_string open_descriptor
        try_call send recv lift close pure next_status next_count next_bytes Kernel.◌>>=◌
    tcp_main_replies =
        (refl, rw (take_all (min server_room 18) (echo_prefix ++ hello_world) (omega arith)) refl)

    module _ (request reply : Bytes) (x : IsTcpExchange request reply) where
      asked : request ≡ hello_world
      asked =
          x.requested
          ∙ ap (received_by sock) (tcp_client_sends reply)
          ∙ received_by_one sock hello_world

      told : reply ≡ echo_prefix ++ hello_world
      told =
          x.replied
          ∙ ap (λ m. received_by client_fd (tcp_main (tcp_server_world m)).1.sent) asked
          ∙ ap (received_by client_fd) tcp_main_replies.1
          ∙ received_by_one client_fd (echo_prefix ++ hello_world)

      -- The TCP client and the TCP server of Lecture 1, talking to each other, each over a kernel that
      -- takes its whole message in one send and fails no call: both return 0, and the client has
      -- printed "Echo: Hello World!".
      pub tcp_client_hears :
          ((tcp_client (tcp_client_world reply)).0
            ≡ ok (record { code = pos 0; printed = (echo_prefix ++ hello_world) ∷ [] }))
          × ((tcp_main (tcp_server_world request)).0 ≡ ok (pos 0))
      tcp_client_hears = (
        ap (λ m. (tcp_client (tcp_client_world m)).0) told ∙ tcp_client_prints,
        ap (λ m. (tcp_main (tcp_server_world m)).0) asked ∙ tcp_main_replies.0,
      )

module _ (sockfd server_fd client_room server_room : ℕ) (client server : World NoData) where
  abbrev udp_client_world : Bytes → World NoData
  udp_client_world reply = smooth (some sockfd ∷ []) (true ∷ []) client_room reply client

  abbrev udp_server_world : Bytes → World NoData
  udp_server_world request = smooth (some server_fd ∷ []) (true ∷ []) server_room request server

  -- What arrives at the one is what the other sends.
  pub record IsUdpExchange (request reply : Bytes) : Type 0 where
    pub requested : request ≡ received_by sockfd (udp_client (udp_client_world reply)).1.sent
    pub replied : reply ≡ received_by server_fd (udp_main (udp_server_world request)).1.sent

  udp_client_asks :
      (reply : Bytes)
      → 18 ≤ client_room
      → ((udp_client (udp_client_world reply)).0 ≡ ok (silent (pos 0)))
        × ((udp_client (udp_client_world reply)).1.sent ≡ (sockfd, hello_udp) ∷ [])
  unfolding udp_client send_datagram after_sendto after_recvfrom close_with open_descriptor try_call
      send recv close pure next_status next_count next_bytes Kernel.◌>>=◌
  udp_client_asks reply fits =
      (refl, rw (take_all (min client_room 18) hello_udp (omega arith)) refl)

  udp_main_replies :
      18 ≤ server_room
      → ((udp_main (udp_server_world hello_udp)).0 ≡ ok (pos 0))
        × ((udp_main (udp_server_world hello_udp)).1.sent ≡ (server_fd, hello_udp) ∷ [])
  unfolding udp_main serve_datagram echo_datagram answered buffer_text c_string open_descriptor
      try_call send recv lift close pure next_status next_count next_bytes Kernel.◌>>=◌
  udp_main_replies fits = (refl, rw (take_all (min server_room 18) hello_udp (omega arith)) refl)

  module _ (fits : 18 ≤ client_room) (server_fits : 18 ≤ server_room) (request reply : Bytes)
      (x : IsUdpExchange request reply) where
    datagram : request ≡ hello_udp
    datagram =
        x.requested
        ∙ ap (received_by sockfd) (udp_client_asks reply fits).1
        ∙ received_by_one sockfd hello_udp

    -- The UDP client and the UDP server of Lecture 1, talking to each other, each over a kernel that
    -- takes its whole datagram and fails no call: both return 0, and the datagram that reaches the
    -- client is the one that it has sent, "Hello, UDP Server!".
    pub udp_client_hears :
        ((udp_client (udp_client_world reply)).0 ≡ ok (silent (pos 0)))
        × ((udp_main (udp_server_world request)).0 ≡ ok (pos 0))
        × (request ≡ hello_udp)
        × (reply ≡ request)
    udp_client_hears = (
      (udp_client_asks reply fits).0,
      ap (λ m. (udp_main (udp_server_world m)).0) datagram ∙ (udp_main_replies server_fits).0,
      datagram,
      x.replied
          ∙ ap (λ m. received_by server_fd (udp_main (udp_server_world m)).1.sent) datagram
          ∙ ap (received_by server_fd) (udp_main_replies server_fits).1
          ∙ received_by_one server_fd hello_udp
          ∙ sym datagram,
    )
