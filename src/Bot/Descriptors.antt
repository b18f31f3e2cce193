-- ===== src/Bot/Descriptors.antt =====
-- The sockets of the bot: where src/bot/Bot.cpp opens and closes them.
use irc.Base.{
  ℕ, ◌≡◌, refl, Bool, true, false, not, List, [], ◌∷◌, Option, none, some, arith, if◌then◌else◌,
  Option-cases, Bool-cases, inl, inr, ◌⊎◌,
}
use irc.Text.{Text}
use irc.Bot.{Bot, Address, first_connected, connect_to_server, Arrival, run}
use irc.Bot.Socket.{Result, done, raised, blocked, Wire}
use irc.Descriptors.{Sockets, no_sockets, open_socket, close_socket}

-- `closeBotSocket`.
abbrev close_bot_socket : ℕ → Sockets → Sockets
close_bot_socket fd k = close_socket fd k

-- The loop over the addresses in `connectToServer`: the socket of an address that cannot be
-- connected is closed before the next address is tried.
unfoldable pub connect_candidates : List Address → Sockets → Option ℕ × Sockets
connect_candidates [] k = (none, k)
connect_candidates (a ∷ rest) k = elim a.socket [
  | none ↦ connect_candidates rest k
  | some fd ↦
      let opened = open_socket fd k in
      let others = connect_candidates rest (close_bot_socket fd opened) in
      if a.connects then (some fd, opened) else others
]

-- `~Bot`: the socket is closed, if there is one.
unfoldable pub destroy_bot : Option ℕ → Sockets → Sockets
destroy_bot none k = k
destroy_bot (some fd) k = close_bot_socket fd k

-- The bot is destroyed when `main` leaves its `try` block, in whichever way.
unfoldable pub end_bot : Result Bot → Option ℕ → Sockets → Sockets
end_bot (done bot) fd k = destroy_bot fd k
end_bot (raised why) fd k = destroy_bot fd k
end_bot blocked fd k = k

-- The sockets of the bot when it has ended, or while a call waits.
unfoldable pub bot_sockets : Bool → Text ⊎ List Address → List Arrival → Bot → Wire → Sockets
bot_sockets signal_ok addresses arrivals bot w =
    if not signal_ok then destroy_bot none no_sockets else elim addresses [
      | inl why ↦ destroy_bot none no_sockets
      | inr found ↦
          let connected = connect_candidates found no_sockets in
          end_bot (run signal_ok (inr found) arrivals bot w).0 connected.0 connected.1
    ]

-- The socket that is open once the loop is over.
abbrev pub held : Option ℕ → Sockets
held none = no_sockets
held (some fd) = open_socket fd no_sockets

close_socket-open_socket : (fd : ℕ) → close_socket fd (open_socket fd no_sockets) ≡ no_sockets
unfolding close_socket
close_socket-open_socket fd = ground arith

connect_candidates_lem :
    (found : List Address)
    → connect_candidates found no_sockets ≡ (first_connected found, held (first_connected found))
unfolding connect_candidates first_connected
connect_candidates_lem [] = refl
connect_candidates_lem (a ∷ rest) =
    let others = connect_candidates_lem rest in
    elim (Option-cases a.socket) [
      | inl refused ↦ rw (refused, connect_candidates, first_connected) others
      | inr (fd, given) ↦ elim (Bool-cases a.connects) [
        | inl connected ↦ rw (given, connected, connect_candidates, first_connected) refl
        | inr failed ↦
            rw (given, failed, connect_candidates, first_connected, close_socket-open_socket fd)
              others
      ]
    ]

-- The end of a bot that holds the socket.
end_bot-held :
    (r : Result Bot) (o : Option ℕ)
    → end_bot r o (held o)
      ≡ (elim r [ done rested ↦ no_sockets | raised why ↦ no_sockets | blocked ↦ held o ])
unfolding end_bot destroy_bot
end_bot-held (done bot) none = refl
end_bot-held (done bot) (some fd) = close_socket-open_socket fd
end_bot-held (raised why) none = refl
end_bot-held (raised why) (some fd) = close_socket-open_socket fd
end_bot-held blocked o = refl

-- Whatever the addresses are, and whatever its calls answer: while a call of the bot waits, the socket
-- that it has open is the one that was connected, and when the bot has ended, by its last statement
-- or by an exception, it has none open; and it has called `close` for no descriptor that was not open.
pub bot_sockets_lem :
    (signal_ok : Bool) (addresses : Text ⊎ List Address) (arrivals : List Arrival) (bot : Bot)
    (w : Wire)
    → bot_sockets signal_ok addresses arrivals bot w
      ≡ (elim (run signal_ok addresses arrivals bot w).0 [
        | done rested ↦ no_sockets
        | raised why ↦ no_sockets
        | blocked ↦ elim addresses [
          | inl why ↦ no_sockets
          | inr found ↦ held (first_connected found)
        ]
      ])
unfolding bot_sockets destroy_bot run connect_to_server
bot_sockets_lem false addresses arrivals bot w = refl
bot_sockets_lem true (inl why) arrivals bot w = refl
bot_sockets_lem true (inr found) arrivals bot w =
    rw (connect_candidates_lem found)
      (end_bot-held (run true (inr found) arrivals bot w).0 (first_connected found))
