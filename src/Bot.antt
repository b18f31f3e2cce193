-- ===== src/Bot.antt =====
-- src/bot/Bot.cpp: the bot, a client of the server with one blocking socket. What it opens and closes
-- is in Bot/Descriptors; lines for the logs are left out.
pub mod Socket
pub mod Lines
pub mod Sending
pub mod Whole
pub mod Drain
pub mod Returning
pub mod Descriptors
pub mod Exchange
pub mod Login
pub mod Names
pub mod Greeting
pub mod Reply
pub mod Registration
pub mod Reading
pub mod Admission
pub mod Handshake
pub mod Arguments
use Prim.Native.String.{String}
use irc.Base.{
  ℕ, zero, suc, ◌+◌, ◌-◌, Bool, true, false, not, ◌&&◌, ◌||◌, ◌⊎◌, inl, inr, List, [], ◌∷◌, ◌++◌,
  Option, none, some, length, is_empty, get_or, take, drop, all, ltb, leb, ◌==◌, if◌then◌else◌,
}
use irc.Text.{Text, cr, lf, find_byte, find_text, starts_with, strip_cr, text_eq}
use irc.Text.Decimal.{to_decimal}
use irc.Client.{is_control, is_forbidden}
use irc.Server.{text, line}
use irc.Bot.Socket.{
  Answer, took, interrupted, failed, Wire, Result, done, raised, blocked, Io, pure, raise, block,
  raise_if, ◌>>=◌, ◌>>◌,
}

abbrev pub max_bot_message_size : ℕ
max_bot_message_size = 512

abbrev pub max_receive_buffer_size : ℕ
max_receive_buffer_size = 8192

abbrev pub bot_nickname : Text
bot_nickname = text "ft_bot"

pub record Bot : Type 0 where
  pub host : Text
  pub port : ℕ
  pub password : Text
  pub channel : Text
  pub receive_buffer : Text

-- The constructor, with its two exceptions.
unfoldable pub new_bot : Text → ℕ → Text → Text → Result Bot
new_bot host port password channel =
    if is_empty host || is_empty password || is_empty channel
    then raised (text "bot arguments must not be empty")
    else if ltb port 1 || ltb 65535 port
    then raised (text "bot port must be between 1 and 65535")
    else done (record {
      host = host;
      port = port;
      password = password;
      channel = channel;
      receive_buffer = [];
    })

-- An address that `getaddrinfo` found: the descriptor that `socket` gives, if it does, and whether
-- `connect` succeeds.
pub record Address : Type 0 where
  pub socket : Option ℕ
  pub connects : Bool

-- The first address that has a socket and connects.
unfoldable pub first_connected : List Address → Option ℕ
first_connected [] = none
first_connected (a ∷ rest) =
    let others = first_connected rest in
    elim a.socket [ none ↦ others | some fd ↦ if a.connects then some fd else others ]

-- A failure of `getaddrinfo` comes with the text that `gai_strerror` has for it.
unfoldable pub connect_to_server : Text ⊎ List Address → Io (Unit {0})
connect_to_server (inl why) = raise (line (text "getaddrinfo() failed: " ∷ why ∷ []))
connect_to_server (inr addresses) = elim (first_connected addresses) [
  | none ↦ raise (text "bot could not connect to the IRC server")
  | some fd ↦ pure tt
]

-- The loop over the bytes that are still to send.
unfoldable pub send_rest : List Answer → Text → Text → Result (Unit {0}) × Wire
send_rest [] rest sent =
    (if is_empty rest then done tt else blocked, record { answers = []; sent = sent })
send_rest (interrupted ∷ more) rest sent =
    let again = send_rest more rest sent in
    if is_empty rest then (done tt, record { answers = interrupted ∷ more; sent = sent }) else again
send_rest (failed why ∷ more) rest sent =
    if is_empty rest then (done tt, record { answers = failed why ∷ more; sent = sent }) else (
      raised (line (text "bot send() failed: " ∷ why ∷ [])),
      record { answers = more; sent = sent },
    )
send_rest (took zero ∷ more) rest sent =
    if is_empty rest
    then (done tt, record { answers = took zero ∷ more; sent = sent })
    else (raised (text "bot send() returned zero bytes"), record { answers = more; sent = sent })
send_rest (took (suc n) ∷ more) rest sent =
    let again = send_rest more (drop (suc n) rest) (sent ++ take (suc n) rest) in
    if is_empty rest
    then (done tt, record { answers = took (suc n) ∷ more; sent = sent })
    else again

unfoldable pub send_line : Text → Io (Unit {0})
send_line message w =
    if is_empty message || ltb max_bot_message_size (length message + 2)
    then (raised (text "bot refused an invalid IRC line"), w)
    else if not (all (λ b. not (is_control b)) message)
    then (raised (text "bot refused an IRC control byte"), w)
    else send_rest w.answers (message ++ text "\r\n") w.sent

-- A line is taken from the receive buffer, if there is one.
unfoldable pub extract_line : Bot → Result (Option Text) × Bot
extract_line bot = elim (find_byte lf bot.receive_buffer) [
  | none ↦
      if leb max_bot_message_size (length bot.receive_buffer)
      then (raised (text "bot received an oversized IRC line"), bot)
      else (done none, bot)
  | some pos ↦
      let found = strip_cr (take pos bot.receive_buffer) in
      let rest = record bot { receive_buffer = drop (pos + 1) bot.receive_buffer } in
      if ltb max_bot_message_size (pos + 1)
      then (raised (text "bot received an oversized IRC line"), bot)
      else if all (λ b. not (is_forbidden b)) found
      then (done (some found), rest)
      else (raised (text "bot received an IRC control byte"), rest)
]

-- The channel of a JOIN, without the colon before it.
abbrev pub strip_colon : Text → Text
strip_colon s = if not (is_empty s) && get_or s 0 0 == b':' then drop 1 s else s

-- A user who joins the bot's channel is greeted.
unfoldable pub greet_user : Text → Text → Text → Io (Unit {0})
greet_user channel nickname joined_channel =
    if is_empty nickname || text_eq nickname bot_nickname
    then pure tt
    else if not (text_eq (strip_colon joined_channel) channel)
    then pure tt
    else send_line (line (text "PRIVMSG " ∷ channel ∷ text " :Hello @" ∷ nickname ∷ []))

unfoldable pub greet_joined_user : Text → Text → Io (Unit {0})
greet_joined_user channel message =
    if is_empty message || not (get_or message 0 0 == b':')
    then pure tt
    else elim (find_text (text " JOIN ") message) [
      | none ↦ pure tt
      | some join_pos ↦ elim (find_byte b'!' message) [
        | none ↦ pure tt
        | some nick_end ↦
            if ltb join_pos nick_end
            then pure tt
            else greet_user channel (take (nick_end - 1) (drop 1 message))
                (drop (join_pos + 6) message)
      ]
    ]

-- `line.find(pattern) != npos`.
abbrev pub holds : String → Text → Bool
holds pattern message = elim (find_text (text pattern) message) [ none ↦ false | some i ↦ true ]

unfoldable pub process_line : Text → Text → Io (Unit {0})
process_line channel message =
    if starts_with (text "PING ") message
    then send_line (line (text "PONG " ∷ drop 5 message ∷ []))
    else if holds " 001 " message
    then send_line (line (text "JOIN " ∷ channel ∷ []))
    else if holds " 433 " message
    then raise (text "bot nickname is already in use")
    else if holds " 464 " message
    then raise (text "bot password was rejected")
    else greet_joined_user channel message

-- `while (extractLine(line)) processLine(line);`
unfoldable pub process_lines : ℕ → Bot → Io Bot
process_lines zero bot = pure bot
process_lines (suc fuel) bot =
    let (r, left) = extract_line bot in
    elim r [
      | raised why ↦ raise why
      | blocked ↦ block
      | done none ↦ pure left
      | done (some message) ↦ process_line left.channel message >> process_lines fuel left
    ]

-- `recv`: the end of the stream, an interruption (EINTR), a failure, or bytes.
pub data Arrival : Type 0 where
  closed_by_server recv_interrupted : Arrival
  recv_failed : Text → Arrival
  received : Text → Arrival

-- One chunk, with all the lines that it completes.
unfoldable pub receive_chunk : Text → Bot → Io Bot
receive_chunk chunk bot =
    if ltb max_receive_buffer_size (length bot.receive_buffer)
      || ltb (max_receive_buffer_size - length bot.receive_buffer) (length chunk)
    then raise (text "bot receive buffer limit exceeded")
    else let grown : Bot = record bot { receive_buffer = bot.receive_buffer ++ chunk } in
      process_lines (suc (length grown.receive_buffer)) grown

unfoldable pub receive_messages : List Arrival → Bot → Io Bot
receive_messages [] bot = block
receive_messages (closed_by_server ∷ more) bot = pure bot
receive_messages (recv_interrupted ∷ more) bot = receive_messages more bot
receive_messages (recv_failed why ∷ more) bot = raise (line (text "bot recv() failed: " ∷ why ∷ []))
receive_messages (received chunk ∷ more) bot = receive_chunk chunk bot >>= receive_messages more

-- The lines by which the bot logs in.
unfoldable pub pass_line : Text → Text
pass_line password = line (text "PASS :" ∷ password ∷ [])

unfoldable pub nick_line : Text
nick_line = line (text "NICK " ∷ bot_nickname ∷ [])

unfoldable pub user_line : Text
user_line = text "USER ftbot 0 * :ft_irc bonus bot"

-- `signal_ok`: whether `signal(SIGPIPE, SIG_IGN)` succeeds.
unfoldable pub run : Bool → Text ⊎ List Address → List Arrival → Bot → Io Bot
run signal_ok addresses arrivals bot = do
  raise_if (not signal_ok) (text "bot signal(SIGPIPE) failed")
  connect_to_server addresses
  send_line (pass_line bot.password)
  send_line nick_line
  send_line user_line
  receive_messages arrivals bot
