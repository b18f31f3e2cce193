-- ===== src/Tests/Bots.antt =====
-- The bot: its lines, its sending, and what it exchanges with the server.
use irc.Base.{List, ◌≡◌, ◌↔◌, refl, true, false, [], ◌∷◌, ◌++◌, some, arith}
use irc.Text.{Text, codes, text_eq, int_key}
use irc.Text.Tokens.{is_space}
use irc.Map.{lookup}
use irc.Parser.{parse}
use irc.Client
use irc.Client.{is_control, is_valid_outbound_message}
use irc.Server.{Server, text, line}
use irc.Command.Join.{join_message, is_valid_channel_name}
use irc.Command.Nick.{is_valid_nickname}
use irc.Command.User.{is_valid_username}
use irc.Arguments
use irc.Bot.{
  Address, first_connected, run, bot_nickname, Bot, extract_line, send_line, process_line,
  receive_messages, received, closed_by_server,
}
use irc.Bot.Socket.{Wire, done, raised, blocked, took, interrupted}
use irc.Descriptors.{no_sockets}
use irc.Base.{inr}
use irc.Bot.Descriptors.{held, bot_sockets, bot_sockets_lem}
use irc.Bot.Lines.{extract_line_agrees}
use irc.Bot.Sending.{Part, Sendable, send_line-Part, send_line_done}
use irc.Bot.{Arrival, recv_interrupted}
use irc.Bot.Whole.{whole_lines, process_each}
use irc.Bot.Returning.{receive_messages_done}
use irc.Bot.Drain.{Rested, Read, receive_messages-Read}
use irc.Bot.Exchange.{extract_line-Sendable, extract_line-valid}
use irc.Bot.Registration.{lookup-logged_in, logged_in, enrolled, welcome_line}
use irc.Command.User.{welcome}
use irc.Client.{send_message, is_registered}
use irc.Loop.{bytes, handle_client_read}
use irc.Bot.Reading.{reading}
use irc.Bot.Admission.{welcomed}
use irc.Bot.Handshake.{send_login, sent_bytes, lookup-sent_login}
use irc.Bot.Names.{Newcomer}
use irc.Bot.Greeting.{announcement, greeting, process_line-announcement}
use irc.Bot.Reply.{greeting-parsed}
use irc.Tests.States.{user_at, alice, bob, empty_server}

abbrev helper : Bot
helper = record {
  host = codes "127.0.0.1";
  port = 6667;
  password = codes "secret";
  channel = codes "#lobby";
  receive_buffer = codes "PING :a\r\nPRIVMSG bob :hi\r\n";
}

abbrev slow_wire : Wire
slow_wire = record {
  answers = took 1 ∷ interrupted ∷ took 1 ∷ took 1 ∷ took 1 ∷ took 1 ∷ [];
  sent = codes "NICK a\r\n";
}

hello-Sendable : Sendable (codes "HI")
hello-Sendable = record { some_byte = refl; short = ground arith; clean = refl }

bob-Newcomer : Newcomer bob (codes "#lobby")
unfolding is_valid_nickname is_valid_username is_valid_channel_name text_eq text
bob-Newcomer = record {
  nickname_valid = refl;
  username_valid = refl;
  name_valid = refl;
  no_bot = refl;
}

extract_line_agrees_example :
    (((extract_line helper).0 ≡ done (some (codes "PING :a")))
      ↔ ((Client.extract_line alice).0 ≡ some (codes "PING :a")))
    × ((extract_line helper).0 ≡ done (some (codes "PING :a"))
        → (extract_line helper).1.receive_buffer ≡ (Client.extract_line alice).1.recv_buffer)
extract_line_agrees_example = extract_line_agrees helper alice (codes "PING :a") refl

send_line-Part_example :
    Part
      (codes "HI" ++ text "\r\n")
      slow_wire.sent
      (send_line (codes "HI") slow_wire).0
      (send_line (codes "HI") slow_wire).1.sent
    × ((send_line (codes "HI") slow_wire).0 ≡ done tt → Sendable (codes "HI"))
send_line-Part_example = send_line-Part (codes "HI") slow_wire

send_line_done_example :
    ((send_line (codes "HI") slow_wire).0 ≡ done tt)
    × ((send_line (codes "HI") slow_wire).1.sent ≡ slow_wire.sent ++ (codes "HI" ++ text "\r\n"))
    × (is_valid_outbound_message (codes "HI" ++ text "\r\n") ≡ true)
send_line_done_example = send_line_done (codes "HI") slow_wire hello-Sendable (ground arith)

abbrev quiet : Bot
quiet = record helper { receive_buffer = codes "PI" }

abbrev ping_arrivals : List Arrival
ping_arrivals = received (codes "NG :a\r\nPI") ∷ recv_interrupted ∷ closed_by_server ∷ []

abbrev pong_wire : Wire
pong_wire = record { answers = took 600 ∷ []; sent = [] }

abbrev pong_sent : Wire
pong_sent = record { answers = []; sent = codes "PONG :a\r\n" }

quiet_end : receive_messages ping_arrivals quiet pong_wire ≡ (done quiet, pong_sent)
unfolding receive_messages irc.Bot.receive_chunk irc.Bot.process_lines irc.Bot.extract_line
    irc.Bot.process_line send_line irc.Bot.send_rest line text irc.Text.find_byte irc.Text.strip_cr
    irc.Text.starts_with
quiet_end = refl

receive_messages-Read_example :
    Read quiet (codes "PING :a\r\nPI") pong_wire quiet pong_sent × Rested quiet
unfolding irc.Bot.Whole.arrived
receive_messages-Read_example =
    receive_messages-Read ping_arrivals quiet pong_wire (refl, ground arith) quiet_end

quiet_reaction :
    process_each quiet.channel (whole_lines [] (codes "PING :a\r\nPI")) pong_wire
    ≡ (done tt, pong_sent)
unfolding irc.Bot.process_line send_line irc.Bot.send_rest line text irc.Text.strip_cr
    irc.Text.starts_with process_each whole_lines
quiet_reaction = refl

receive_messages_done_example :
    (b : Bot) × (receive_messages ping_arrivals quiet pong_wire ≡ (done b, pong_sent))
unfolding irc.Bot.Whole.arrived irc.Bot.Returning.Fits irc.Bot.Returning.all_clean
    irc.Bot.Whole.last_part irc.Text.strip_cr
receive_messages_done_example =
    receive_messages_done ping_arrivals quiet pong_wire (refl, ground arith)
      (ground arith, refl, tt) quiet_reaction

extract_line-Sendable_example :
    Client.extract_line (user_at 4 (codes "ft_bot") (codes "HI\r\nNICK")) ≡ (
      some (codes "HI"),
      record (user_at 4 (codes "ft_bot") (codes "HI\r\nNICK")) { recv_buffer = codes "NICK" },
    )
unfolding text
extract_line-Sendable_example =
    extract_line-Sendable (codes "HI") (codes "NICK")
      (user_at 4 (codes "ft_bot") (codes "HI\r\nNICK")) hello-Sendable refl

extract_line-valid_example :
    extract_line (record helper { receive_buffer = codes "HI\r\nPI" })
    ≡ (done (some (codes "HI")), record helper { receive_buffer = codes "PI" })
unfolding text is_valid_outbound_message
extract_line-valid_example =
    extract_line-valid (codes "HI") (codes "PI")
      (record helper { receive_buffer = codes "HI\r\nPI" }) refl refl

abbrev fresh : Client.Client
fresh = record (user_at 6 [] []) { pass_ok = false; nick_set = false; user_set = false }

abbrev door : Server
door = record empty_server { clients = (6, fresh) ∷ [] }

lookup-logged_in_example :
    (lookup 6 (logged_in 6 door).clients
      ≡ some (send_message (welcome (enrolled fresh)) (enrolled fresh)))
    × (is_registered (enrolled fresh) ≡ true)
    × ((enrolled fresh).nickname ≡ bot_nickname)
    × (welcome (enrolled fresh) ≡ welcome_line ++ text "\r\n")
    × (process_line (codes "#lobby") welcome_line
        ≡ send_line (line (text "JOIN " ∷ codes "#lobby" ∷ [])))
unfolding lookup Arguments.is_valid_password irc.Text.find_byte irc.Server.find_client_by_nick
    irc.Server.find_nick text text_eq irc.Text.Casemap.to_irc_lower_case
lookup-logged_in_example =
    lookup-logged_in 6 fresh door (codes "#lobby") refl refl refl refl refl refl

process_line-announcement_example :
    (join_message bob (codes "#lobby") ≡ announcement bob (codes "#lobby") ++ text "\r\n")
    × (process_line (codes "#lobby") (announcement bob (codes "#lobby"))
        ≡ send_line (greeting (codes "#lobby") bob.nickname))
process_line-announcement_example = process_line-announcement bob (codes "#lobby") bob-Newcomer

greeting-parsed_example :
    Sendable (greeting (codes "#lobby") bob.nickname)
    × (parse (greeting (codes "#lobby") bob.nickname) ≡ record {
      prefix = [];
      command = text "PRIVMSG";
      params = codes "#lobby" ∷ (text "Hello @" ++ bob.nickname) ∷ [];
    })
unfolding is_space
greeting-parsed_example = greeting-parsed bob (codes "#lobby") bob-Newcomer refl refl

abbrev refusing : Address
refusing = record { socket = some 3; connects = false }

abbrev taking : Address
taking = record { socket = some 4; connects = true }

-- The first address refuses the connection, and the second takes it.
bot_sockets_lem_example :
    bot_sockets true (inr (refusing ∷ taking ∷ [])) (closed_by_server ∷ []) helper slow_wire
    ≡ (elim (run true (inr (refusing ∷ taking ∷ [])) (closed_by_server ∷ []) helper slow_wire).0 [
      | done rested ↦ no_sockets
      | raised why ↦ no_sockets
      | blocked ↦ held (first_connected (refusing ∷ taking ∷ []))
    ])
bot_sockets_lem_example =
    bot_sockets_lem true (inr (refusing ∷ taking ∷ [])) (closed_by_server ∷ []) helper slow_wire

-- The password line in two pieces, and the two others whole.
abbrev quick_wire : Wire
quick_wire = record {
  answers = took 5 ∷ interrupted ∷ took 600 ∷ took 600 ∷ took 600 ∷ [];
  sent = [];
}

sent_quickly : (send_login (codes "secret") quick_wire).0 ≡ done tt
unfolding send_line irc.Bot.send_rest irc.Bot.pass_line irc.Bot.nick_line irc.Bot.user_line line
    text
sent_quickly = refl

lookup-sent_login_example :
    (lookup 6 (handle_client_read 6 (bytes (sent_bytes (codes "secret") quick_wire)) door).clients
      ≡ some (welcomed (reading [] fresh)))
    × (is_registered (enrolled fresh) ≡ true)
    × ((enrolled fresh).nickname ≡ bot_nickname)
unfolding lookup Arguments.is_valid_password irc.Text.find_byte irc.Server.find_client_by_nick
    irc.Server.find_nick text text_eq irc.Text.Casemap.to_irc_lower_case
lookup-sent_login_example =
    lookup-sent_login 6 fresh door quick_wire sent_quickly refl refl refl refl refl refl refl refl
      refl refl
