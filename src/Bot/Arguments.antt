-- ===== src/Bot/Arguments.antt =====
-- src/bot/main.cpp: the checks of the bot's arguments, compared with those of the server.
use irc.Base.{
  ℕ, ◌≡◌, refl, Bool, true, false, not, ◌&&◌, ◌||◌, ◌⊎◌, List, [], ◌∷◌, Option, none, some, arith,
  length, all, is_empty, get_or, ◌==◌, ltb, if◌then◌else◌,
}
use irc.Text.{Text, cr, lf, find_byte}
use irc.Text.Decimal.{is_digit}
use irc.Text.Search.{Free}
use irc.Command.Join
use irc.Arguments
use irc.Arguments.{read_long}
use irc.Bot.{Bot, new_bot, Address, Arrival, run}
use irc.Bot.Socket.{done, raised, blocked, Wire}

abbrev pub max_password_size : ℕ
max_password_size = 504

abbrev pub max_channel_name_size : ℕ
max_channel_name_size = 50

unfoldable pub parse_bot_port : Option Text → Option ℕ
parse_bot_port none = none
parse_bot_port (some raw) =
    if is_empty raw then none else if not (all is_digit raw) then none else elim (read_long raw) [
      | none ↦ none
      | some port ↦ if ltb port 1 || ltb 65535 port then none else some port
    ]

unfoldable pub contains_line_control : Text → Bool
contains_line_control value = elim (find_byte cr value) [
  | some i ↦ true
  | none ↦ elim (find_byte lf value) [ some i ↦ true | none ↦ false ]
]

unfoldable pub is_valid_bot_password : Option Text → Bool
is_valid_bot_password none = false
is_valid_bot_password (some raw) =
    if is_empty raw
    then false
    else if ltb max_password_size (length raw)
    then false
    else not (contains_line_control raw)

-- A byte that the bot accepts in the name of its channel.
abbrev pub is_channel_byte : ℕ → Bool
is_channel_byte c = not (c == b' ' || c == b',' || c == b':' || c == 7 || c == cr || c == lf)

unfoldable pub is_valid_bot_channel : Text → Bool
is_valid_bot_channel channel =
    if ltb (length channel) 2 || ltb max_channel_name_size (length channel)
    then false
    else if not (get_or channel 0 0 == b'#') && not (get_or channel 0 0 == b'&')
    then false
    else all is_channel_byte channel

-- The arguments `host`, `port`, `password` and `channel`, behind the name of the program: the
-- bot, or `none` where `main` reports one of them, or the constructor throws.
unfoldable pub read_arguments : Option (List (Option Text)) → Option Bot
read_arguments (some (some program ∷ some host ∷ some port ∷ some password ∷ some channel ∷ [])) =
    elim (parse_bot_port (some port)) [
      | none ↦ none
      | some number ↦
          if not (is_valid_bot_password (some password))
          then none
          else if not (is_valid_bot_channel channel)
          then none
          else elim (new_bot host number password channel) [
            | done bot ↦ some bot
            | raised why ↦ none
            | blocked ↦ none
          ]
    ]
read_arguments _ = none

-- The status of the process; `none` while a call waits.
unfoldable pub exit_status :
    Bool → Text ⊎ List Address → List Arrival → Wire → Option (List (Option Text)) → Option ℕ
exit_status signal_ok addresses arrivals w argv = elim (read_arguments argv) [
  | none ↦ some 1
  | some bot ↦ elim (run signal_ok addresses arrivals bot w).0 [
    | done rested ↦ some 0
    | raised why ↦ some 1
    | blocked ↦ none
  ]
]

-- The bot and the server accept the same ports and the same passwords.
pub checks_agree :
    (raw : Option Text)
    → (parse_bot_port raw ≡ Arguments.parse_port raw)
      × (is_valid_bot_password raw ≡ Arguments.is_valid_password raw)
unfolding parse_bot_port Arguments.parse_port is_valid_bot_password Arguments.is_valid_password
    contains_line_control
checks_agree none = (refl, refl)
checks_agree (some raw) = (refl, ground arith)

channel_bytes :
    (s : Text)
    → all is_channel_byte s ≡ true
    → (all (λ c. not (c == b' ' || c == b',' || c == 7)) s ≡ true) × Free cr s × Free lf s
channel_bytes [] h = (refl, refl, refl)
channel_bytes (c ∷ s) h = ground (arith, channel_bytes s)

-- A channel that the bot accepts is one that the server accepts, and its name has no CR or LF.
pub is_valid_bot_channel-accepted :
    (channel : Text)
    → is_valid_bot_channel channel ≡ true
    → (Join.is_valid_channel_name channel ≡ true) × Free cr channel × Free lf channel
unfolding is_valid_bot_channel Join.is_valid_channel_name
is_valid_bot_channel-accepted channel v = ground (arith, channel_bytes channel)

constructor_accepts :
    (host port password channel : Text) {number : ℕ}
    → parse_bot_port (some port) ≡ some number
    → is_valid_bot_password (some password) ≡ true
    → is_valid_bot_channel channel ≡ true
    → is_empty host ≡ false
    → new_bot host number password channel
      ≡ done (record {
        host = host;
        port = number;
        password = password;
        channel = channel;
        receive_buffer = [];
      })
unfolding parse_bot_port is_valid_bot_password is_valid_bot_channel new_bot
constructor_accepts host port password channel {number} p w c h = ground arith

-- Arguments that pass the checks of `main`, with a host that is not empty, give the bot that they
-- name, with an empty buffer: its constructor does not throw.
pub read_arguments-new_bot :
    (program host port password channel : Text) (number : ℕ)
    → parse_bot_port (some port) ≡ some number
    → is_valid_bot_password (some password) ≡ true
    → is_valid_bot_channel channel ≡ true
    → is_empty host ≡ false
    → read_arguments
        (some (some program ∷ some host ∷ some port ∷ some password ∷ some channel ∷ []))
      ≡ some (record {
        host = host;
        port = number;
        password = password;
        channel = channel;
        receive_buffer = [];
      })
unfolding read_arguments
read_arguments-new_bot program host port password channel number p w c h = rw (
  p,
  w,
  c,
  constructor_accepts host port password channel {number = number} p w c h,
  read_arguments,
)
