-- ===== src/Loop.antt =====
-- The event loop of src/server/Server.cpp. What the kernel answers to `poll`, `accept`, `recv` and
-- `send` is the argument of each step. The descriptors that are closed are in Descriptors; lines for
-- the logs are left out.
pub mod Kept
pub mod Events
pub mod Invariant
pub mod Drain
pub mod Carried
pub mod Steady
pub mod Quota
pub mod Departure
pub mod Removal
pub mod Farewell
pub mod Poll
use irc.Base.{
  ℕ, zero, suc, ◌+◌, Bool, true, false, not, ◌&&◌, ◌||◌, List, [], ◌∷◌, ◌++◌, Option, none, some,
  length, is_empty, contains, leb, ◌==◌, if◌then◌else◌,
}
use irc.Text.{Text, int_key, text_key}
use irc.Map.{Map, lookup, insert, erase}
use irc.Client.{
  Client, new_client, append_to_recv_buffer, extract_line, mark_dead, mark_closing,
  has_pending_output, consume_send_buffer, is_registered,
}
use irc.Channel.{Channel, is_member, remove_member, remove_invited}
use irc.Server.{Server, PollFd, text, line, update_client, count_clients_from_ip, broadcast}
use irc.Command.Dispatch.{process_line}

abbrev pub max_clients_per_ip : ℕ
max_clients_per_ip = 128

abbrev pub max_total_clients : ℕ
max_total_clients = 512

abbrev pub recv_chunk_size : ℕ
recv_chunk_size = 4096

-- `accept`: an error of any kind, or a descriptor, with the results of `fcntl` and `inet_ntop`.
pub data Accepted : Type 0 where
  no_connection : Accepted
  connection : ℕ → Bool → Option Text → Accepted

-- The client and its poll entry are added; `none` is the constructor's exception.
unfoldable pub register_client : ℕ → Option Client → Server → Server
register_client fd none s = s
register_client fd (some c) s = record s {
  clients = insert fd c s.clients;
  poll_fds = s.poll_fds ++ record { fd = fd; poll_in = true; poll_out = false } ∷ [];
}

unfoldable pub admit_client : ℕ → Text → Server → Server
admit_client fd ip s =
    if leb max_clients_per_ip (count_clients_from_ip ip s)
    then s
    else register_client fd (new_client fd ip) s

unfoldable pub accept_new_client : Accepted → Server → Server
accept_new_client no_connection s = s
accept_new_client (connection fd fcntl_ok ip_text) s =
    if leb max_total_clients (length s.clients)
    then s
    else if not fcntl_ok
    then s
    else elim ip_text [ none ↦ s | some ip ↦ admit_client fd ip s ]

-- `recv`: the end of the stream, no data yet (EAGAIN, EWOULDBLOCK, EINTR), an error, or bytes.
pub data Received : Type 0 where
  end_of_stream no_data : Received
  recv_error : Text → Received
  bytes : Text → Received

-- `send` likewise: how many bytes it took.
pub data Sent : Type 0 where
  not_ready : Sent
  send_error : Text → Sent
  took : ℕ → Sent

-- The client is dead, closing, or gone.
abbrev pub is_stopped : ℕ → Server → Bool
is_stopped fd s = elim (lookup fd s.clients) [ none ↦ true | some c ↦ c.dead || c.closing ]

-- `while (client->extractLine(line)) { processLine(client, line); if (dead or closing) break; }`
unfoldable pub read_lines : ℕ → ℕ → Server → Server
read_lines zero fd s = s
read_lines (suc fuel) fd s = elim (lookup fd s.clients) [
  | none ↦ s
  | some c ↦
      let left = update_client fd (λ b. (extract_line b).1) s in
      elim (extract_line c).0 [
        | none ↦ left
        | some message ↦
            let processed = process_line fd message left in
            let rest = read_lines fuel fd processed in
            if is_stopped fd processed then processed else rest
      ]
]

-- What is left in the receive buffer of the client: each round takes some of it.
abbrev pub unread : ℕ → Server → ℕ
unread fd s = elim (lookup fd s.clients) [ none ↦ 0 | some c ↦ length c.recv_buffer ]

unfoldable pub receive_bytes : ℕ → Text → Client → Server → Server
receive_bytes fd chunk c s =
    let grown = append_to_recv_buffer (some chunk) (length chunk) c in
    let stored =
      update_client fd (λ b. (append_to_recv_buffer (some chunk) (length chunk) b).1) s in
    if grown.0
    then read_lines (suc (length grown.1.recv_buffer)) fd stored
    else update_client fd (mark_dead (text "input flood: recv buffer overflow")) stored

unfoldable pub receive : ℕ → Received → Client → Server → Server
receive fd end_of_stream c s =
    update_client fd (mark_closing (text "client closed the connection")) s
receive fd no_data c s = s
receive fd (recv_error why) c s =
    update_client fd (mark_dead (line (text "recv() failed: " ∷ why ∷ []))) s
receive fd (bytes chunk) c s = receive_bytes fd chunk c s

unfoldable pub handle_client_read : ℕ → Received → Server → Server
handle_client_read fd r s = elim (lookup fd s.clients) [
  | none ↦ s
  | some c ↦ if c.dead || c.closing then s else receive fd r c s
]

unfoldable pub after_send : Sent → Client → Client
after_send not_ready c = c
after_send (send_error why) c = mark_dead (line (text "send() failed: " ∷ why ∷ [])) c
after_send (took zero) c = mark_dead (text "send() returned zero bytes") c
after_send (took (suc n)) c = consume_send_buffer (suc n) c

unfoldable pub handle_client_write : ℕ → Sent → Server → Server
handle_client_write fd w s = elim (lookup fd s.clients) [
  | none ↦ s
  | some c ↦
      if c.dead then s else if is_empty c.send_buffer then s else update_client fd (after_send w) s
]

-- The first loop of `reapDeadClients`: a client that is closing and has nothing to send is dead.
unfoldable pub finish_closing : Client → Client
finish_closing c = if c.closing && not (has_pending_output c) then mark_dead c.dead_reason c else c

unfoldable pub finish_all : Map ℕ Client → Map ℕ Client
finish_all [] = []
finish_all ((fd, c) ∷ rest) = (fd, finish_closing c) ∷ finish_all rest

unfoldable pub dead_fds : Map ℕ Client → List ℕ
dead_fds [] = []
dead_fds ((fd, c) ∷ rest) = let others = dead_fds rest in if c.dead then fd ∷ others else others

-- The client leaves every channel, its invitations too.
unfoldable pub forget_client : ℕ → Map Text Channel → Map Text Channel
forget_client fd [] = []
forget_client fd ((name, ch) ∷ rest) =
    (name, remove_invited fd (remove_member fd ch)) ∷ forget_client fd rest

-- The first poll entry of the descriptor goes.
unfoldable pub erase_poll_fd : ℕ → List PollFd → List PollFd
erase_poll_fd fd [] = []
erase_poll_fd fd (p ∷ ps) = let rest = erase_poll_fd fd ps in if p.fd == fd then ps else p ∷ rest

abbrev pub quit_reason : Client → Text
quit_reason c = if is_empty c.dead_reason then text "Client Quit" else c.dead_reason

-- The loop over the members of one channel: each but the client itself, once.
unfoldable pub add_others : ℕ → List ℕ → List ℕ → List ℕ
add_others client [] recipients = recipients
add_others client (x ∷ xs) recipients =
    add_others client xs (
      if not (x == client) && not (contains x recipients) then recipients ++ x ∷ [] else recipients)

unfoldable pub quit_recipients : ℕ → Map Text Channel → List ℕ → List ℕ
quit_recipients client [] recipients = recipients
quit_recipients client ((name, ch) ∷ rest) recipients =
    quit_recipients client rest
      (if is_member client ch then add_others client ch.members recipients else recipients)

-- Those who share a channel with a registered client learn that it has left.
unfoldable pub announce_quit : ℕ → Client → Server → Server
announce_quit fd c s =
    if is_registered c
    then broadcast (quit_recipients fd s.channels [])
        (line (
          text ":"
          ∷ c.nickname
          ∷ text "!"
          ∷ c.username
          ∷ text "@localhost QUIT :"
          ∷ quit_reason c
          ∷ text "\r\n"
          ∷ []))
        none s
    else s

unfoldable pub remove_client : ℕ → Server → Server
remove_client fd s = record s {
  channels = forget_client fd s.channels;
  poll_fds = erase_poll_fd fd s.poll_fds;
  clients = erase fd s.clients;
}

unfoldable pub disconnect_client : ℕ → Server → Server
disconnect_client fd s = elim (lookup fd s.clients) [
  | none ↦ s
  | some c ↦ remove_client fd (announce_quit fd c s)
]

unfoldable pub disconnect_all : List ℕ → Server → Server
disconnect_all [] s = s
disconnect_all (fd ∷ fds) s = disconnect_all fds (disconnect_client fd s)

unfoldable pub reap_dead_clients : Server → Server
reap_dead_clients s =
    let finished : Server = record s { clients = finish_all s.clients } in
    disconnect_all (dead_fds finished.clients) finished

-- The events that each entry waits for; `none` is the exception on a descriptor of no client.
abbrev pub client_events : Client → ℕ → PollFd
client_events c fd =
    if c.closing
    then record { fd = fd; poll_in = false; poll_out = has_pending_output c }
    else record { fd = fd; poll_in = true; poll_out = has_pending_output c }

unfoldable pub refresh_entries : ℕ → Map ℕ Client → List PollFd → Option (List PollFd)
refresh_entries listen_fd clients [] = some []
refresh_entries listen_fd clients (p ∷ ps) =
    let rest = refresh_entries listen_fd clients ps in
    if p.fd == listen_fd
    then elim rest [
      | none ↦ none
      | some qs ↦ some (record { fd = p.fd; poll_in = true; poll_out = false } ∷ qs)
    ]
    else elim (lookup p.fd clients) [
      | none ↦ none
      | some c ↦ elim rest [ none ↦ none | some qs ↦ some (client_events c p.fd ∷ qs) ]
    ]

unfoldable pub refresh_poll_events : Server → Option Server
refresh_poll_events s = elim (refresh_entries s.listen_fd s.clients s.poll_fds) [
  | none ↦ none
  | some ps ↦ some (record s { poll_fds = ps })
]
