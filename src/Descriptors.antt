-- ===== src/Descriptors.antt =====
-- The sockets of the server process: where src/server/Server.cpp and src/client/Client.cpp open and
-- close them, on the way through `main`, the loop and the destructors.
pub mod Agrees
pub mod Tracked
pub mod Running
pub mod Exit
use irc.Base.{
  ℕ, Bool, true, false, not, List, [], ◌∷◌, Option, none, some, length, is_empty, contains, leb,
  erase_first, if◌then◌else◌,
}
use irc.Text.{Text, int_key, text_key}
use irc.Map.{Map, lookup}
use irc.Client.{Client, new_client}
use irc.Server.{Server, count_clients_from_ip}
use irc.Loop.{
  Accepted, no_connection, connection, max_total_clients, max_clients_per_ip, register_client,
  remove_client, announce_quit, finish_all, dead_fds, refresh_poll_events,
}
use irc.Loop.Events.{
  Event, incoming, listen_error, ready, read_event, write_event, error_event, Poll,
  poll_interrupted, poll_failed, reports,
}
use irc.Startup.{
  SignalCalls, SocketCalls, setup_signals, setup_socket, read_server_arguments, Unstarted,
}

-- What the kernel holds: the descriptors that the process has open, and whether it has called
-- `close` for one that was not open (EBADF).
pub record Sockets : Type 0 where
  pub open_fds : List ℕ
  pub bad_close : Bool

abbrev pub no_sockets : Sockets
no_sockets = record { open_fds = []; bad_close = false }

-- `socket` or `accept` has returned the descriptor.
abbrev pub open_socket : ℕ → Sockets → Sockets
open_socket fd k = record k { open_fds = fd ∷ k.open_fds }

-- `close`.
unfoldable pub close_socket : ℕ → Sockets → Sockets
close_socket fd k =
    if contains fd k.open_fds
    then record k { open_fds = erase_first fd k.open_fds }
    else record k { bad_close = true }

pub record Traced : Type 0 where
  pub server : Server
  pub sockets : Sockets

-- `closeSocket(fd, context)`.
abbrev pub closed : ℕ → Traced → Traced
closed fd d = record d { sockets = close_socket fd d.sockets }

-- The `try` block of `acceptNewClient`; without a client the `catch` block closes the socket.
unfoldable pub traced_register : ℕ → Option Client → Traced → Traced
traced_register fd none d = closed fd d
traced_register fd (some c) d = record d { server = register_client fd (some c) d.server }

unfoldable pub traced_admit : ℕ → Text → Traced → Traced
traced_admit fd ip d =
    if leb max_clients_per_ip (count_clients_from_ip ip d.server)
    then closed fd d
    else traced_register fd (new_client fd ip) d

-- The rest of `acceptNewClient`, once `accept` has returned a descriptor.
unfoldable pub traced_connection : ℕ → Bool → Option Text → Traced → Traced
traced_connection fd fcntl_ok ip_text d =
    if leb max_total_clients (length d.server.clients)
    then closed fd d
    else if not fcntl_ok
    then closed fd d
    else elim ip_text [ none ↦ closed fd d | some ip ↦ traced_admit fd ip d ]

unfoldable pub traced_accept : Accepted → Traced → Traced
traced_accept no_connection d = d
traced_accept (connection fd fcntl_ok ip_text) d =
    traced_connection fd fcntl_ok ip_text (record d { sockets = open_socket fd d.sockets })

-- `~Client`.
unfoldable pub delete_client : Client → Sockets → Sockets
delete_client c k = close_socket c.fd k

unfoldable pub traced_disconnect : ℕ → Traced → Traced
traced_disconnect fd d = elim (lookup fd d.server.clients) [
  | none ↦ d
  | some c ↦ closed c.fd (record d { server = remove_client fd (announce_quit fd c d.server) })
]

unfoldable pub traced_disconnect_all : List ℕ → Traced → Traced
traced_disconnect_all [] d = d
traced_disconnect_all (fd ∷ fds) d = traced_disconnect_all fds (traced_disconnect fd d)

unfoldable pub traced_reap : Traced → Traced
traced_reap d =
    let finished = finish_all d.server.clients in
    traced_disconnect_all (dead_fds finished)
      (record d { server = record (d.server) { clients = finished } })

-- The server goes on, or an exception leaves `Server::run`. Poll entries that were refreshed before
-- the exception are not written back: nothing reads them again.
pub data Outcome : Type 0 where
  goes_on threw : Traced → Outcome

unfoldable pub traced_event : Event → Traced → Outcome
traced_event (incoming a) d = goes_on (traced_accept a d)
traced_event listen_error d = threw d
traced_event (ready fd r w e) d =
    goes_on (record d { server = error_event fd r e (write_event fd w (read_event fd r d.server)) })

unfoldable pub traced_events : List Event → Traced → Outcome
traced_events [] d = goes_on d
traced_events (e ∷ es) d = elim (traced_event e d) [
  | threw b ↦ threw b
  | goes_on b ↦ traced_events es b
]

unfoldable pub traced_round : List Event → Traced → Outcome
traced_round es d = elim (refresh_poll_events d.server) [
  | none ↦ threw d
  | some refreshed ↦
      if is_empty refreshed.poll_fds
      then threw (record d { server = refreshed })
      else elim (traced_events es (record d { server = refreshed })) [
        | threw b ↦ threw b
        | goes_on b ↦ goes_on (traced_reap b)
      ]
]

unfoldable pub traced_turn : Poll → Traced → Outcome
traced_turn poll_interrupted d = elim (refresh_poll_events d.server) [
  | none ↦ threw d
  | some refreshed ↦
      if is_empty refreshed.poll_fds
      then threw (record d { server = refreshed })
      else goes_on (record d { server = refreshed })
]
traced_turn poll_failed d = threw d
traced_turn (reports es) d = traced_round es d

unfoldable pub traced_run : List Poll → Traced → Outcome
traced_run [] d = goes_on d
traced_run (p ∷ polls) d = elim (traced_turn p d) [
  | threw b ↦ threw b
  | goes_on b ↦ traced_run polls b
]

-- `~Server`: each client is deleted, and then the listening socket is closed, if there is one.
unfoldable pub delete_clients : Map ℕ Client → Sockets → Sockets
delete_clients [] k = k
delete_clients ((fd, c) ∷ rest) k = delete_clients rest (delete_client c k)

unfoldable pub close_listening : Option ℕ → Sockets → Sockets
close_listening none k = k
close_listening (some fd) k = close_socket fd k

unfoldable pub destroy_server : Map ℕ Client → Option ℕ → Sockets → Sockets
destroy_server clients listen_fd k = close_listening listen_fd (delete_clients clients k)

-- What the process has done: its exit status, and the sockets at its end.
pub record Ended : Type 0 where
  pub status : ℕ
  pub left : Sockets

-- The end of `main`'s `try` block, by its last statement or by an exception.
unfoldable pub finish : Outcome → Ended
finish (goes_on d) = record {
  status = 0;
  left = destroy_server d.server.clients (some d.server.listen_fd) d.sockets;
}
finish (threw d) = record {
  status = 1;
  left = destroy_server d.server.clients (some d.server.listen_fd) d.sockets;
}

-- `setupSocket` and the rest of `run`. The server holds the listening socket as soon as `socket`
-- has returned it.
unfoldable pub listen_and_run : SocketCalls → List Poll → Unstarted → Ended
listen_and_run sockets polls s = elim sockets.socket [
  | none ↦ record { status = 1; left = destroy_server [] none no_sockets }
  | some fd ↦
      let opened = open_socket fd no_sockets in
      elim (setup_socket sockets s) [
        | none ↦ record { status = 1; left = destroy_server [] (some fd) opened }
        | some t ↦ finish (traced_run polls (record { server = t; sockets = opened }))
      ]
]

-- `main`, with the sockets that it opens and closes.
unfoldable pub main_trace :
    SignalCalls → SocketCalls → List Poll → Option (List (Option Text)) → Ended
main_trace signals sockets polls argv = elim (read_server_arguments argv) [
  | none ↦ record { status = 1; left = no_sockets }
  | some s ↦ elim (setup_signals signals) [
    | none ↦ record { status = 1; left = destroy_server [] none no_sockets }
    | some done ↦ listen_and_run sockets polls s
  ]
]
