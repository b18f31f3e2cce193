-- ===== src/Server.antt =====
-- src/server/Server.cpp: the state of the server, its lookups, and the ways in which a command
-- writes to it.
pub mod Delivery
pub mod Find
use Prim.Native.String.{String}
use mathlib.Core.Option
use irc.Base.{
  ℕ, suc, ◌+◌, Bool, true, false, not, ◌&&◌, ◌||◌, List, [], ◌∷◌, ◌++◌, Option, none, some,
  contains, is_empty, ◌==◌, if◌then◌else◌,
}
use irc.Text.{Text, codes, text_eq, int_key, text_key}
use irc.Text.Casemap.{to_irc_lower_case}
use irc.Map.{Map, lookup, insert, erase, modify}
use irc.Client.{Client, send_message}
use irc.Channel.{Channel, new_channel, is_member}

-- `struct pollfd`; the bits POLLIN and POLLOUT of its `events`.
pub record PollFd : Type 0 where
  pub fd : ℕ
  pub poll_in : Bool
  pub poll_out : Bool

pub record Server : Type 0 where
  pub port : ℕ
  pub password : Text
  pub listen_fd : ℕ
  pub poll_fds : List PollFd
  pub clients : Map ℕ Client
  pub channels : Map Text Channel

-- A literal of the source.
unfoldable pub text : String → Text
text s = codes s

-- Texts joined by `+`.
unfoldable pub line : List Text → Text
line [] = []
line (t ∷ ts) = t ++ line ts

abbrev pub get_client_by_fd : ℕ → Server → Option Client
get_client_by_fd fd s = lookup fd s.clients

unfoldable pub count_from_ip : Text → Map ℕ Client → ℕ
count_from_ip ip [] = 0
count_from_ip ip ((fd, c) ∷ rest) =
    let others = count_from_ip ip rest in
    if not c.dead && text_eq c.ip ip then suc others else others

abbrev pub count_clients_from_ip : Text → Server → ℕ
count_clients_from_ip ip s = if is_empty ip then 0 else count_from_ip ip s.clients

-- The first client, in the order of descriptors, that is alive and has the nickname.
unfoldable pub find_nick : Text → Map ℕ Client → Option ℕ
find_nick normalized [] = none
find_nick normalized ((fd, c) ∷ rest) =
    let others = find_nick normalized rest in
    if not c.dead && text_eq (to_irc_lower_case c.nickname) normalized then some fd else others

unfoldable pub find_client_by_nick : Text → Server → Option ℕ
find_client_by_nick nickname s =
    if is_empty nickname then none else find_nick (to_irc_lower_case nickname) s.clients

abbrev pub find_channel : Text → Server → Option Channel
find_channel name s = lookup name s.channels

unfoldable pub create_channel : Text → Server → Server
create_channel name s = elim (find_channel name s) [
  | none ↦ record s { channels = insert name (new_channel name) s.channels }
  | some existing ↦ s
]

unfoldable pub remove_channel : Text → Server → Server
remove_channel name s = record s { channels = erase name s.channels }

-- A write through a `Client *` or a `Channel *`.
unfoldable pub update_client : ℕ → (Client → Client) → Server → Server
update_client fd f s = record s { clients = modify fd f s.clients }

unfoldable pub update_channel : Text → (Channel → Channel) → Server → Server
update_channel name f s = record s { channels = modify name f s.channels }

-- `client->sendMessage(message)`.
unfoldable pub tell : ℕ → Text → Server → Server
unfolding update_client
tell fd message s = update_client fd (send_message message) s

abbrev pub is_sender : ℕ → Option ℕ → Bool
is_sender x none = false
is_sender x (some y) = x == y

-- `Channel::broadcastMessage`, over the members; the sender may be NULL.
unfoldable pub broadcast : List ℕ → Text → Option ℕ → Server → Server
broadcast [] message sender s = s
broadcast (x ∷ xs) message sender s =
    broadcast xs message sender (if is_sender x sender then s else tell x message s)

-- The loop over the members of one channel that gathers recipients once each.
unfoldable pub add_recipients : List ℕ → List ℕ → List ℕ
add_recipients [] recipients = recipients
add_recipients (x ∷ xs) recipients =
    add_recipients xs (if contains x recipients then recipients else recipients ++ x ∷ [])

-- The loop over the channels that the client is in.
unfoldable pub channel_recipients : ℕ → Map Text Channel → List ℕ → List ℕ
channel_recipients client [] recipients = recipients
channel_recipients client ((name, ch) ∷ rest) recipients =
    channel_recipients client rest
      (if is_member client ch then add_recipients ch.members recipients else recipients)

unfoldable pub broadcast_nickname_change : ℕ → Client → Text → Text → Server → Server
broadcast_nickname_change fd who old_nickname new_nickname s =
    if is_empty old_nickname || is_empty new_nickname
    then s
    else broadcast (channel_recipients fd s.channels (fd ∷ []))
        (line (
          text ":"
          ∷ old_nickname
          ∷ text "!"
          ∷ who.username
          ∷ text "@localhost NICK :"
          ∷ new_nickname
          ∷ text "\r\n"
          ∷ []))
        none s
