-- ===== src/Command/Mode.antt =====
-- src/commands/ModeCommand.cpp: the handler; the letters are in Mode/Changes.
pub mod Outsider
pub mod Changes
pub mod Meaning
use irc.Base.{
  ℕ, Bool, true, false, not, ◌&&◌, ◌||◌, List, [], ◌∷◌, ◌++◌, none, some, get_or, is_empty, all,
  ltb, leb, contains, ◌==◌, if◌then◌else◌,
}
use irc.Text.{Text, text_eq, text_key}
use irc.Text.Decimal.{is_digit, atoi, is_positive_int, to_decimal}
use irc.Client.{Client}
use irc.Channel.{
  Channel, is_member, is_operator, add_operator, remove_operator, set_invite_only,
  set_topic_restricted, set_password, set_user_limit,
}
use irc.Server.{
  Server, text, line, tell, broadcast, find_client_by_nick, find_channel, update_channel,
}
use irc.Command.Kick.{about_channel, not_on_channel}
use irc.Command.Mode.Changes.{
  ModeLoop, sign, note, on_server, parameter, mode_i, mode_t, is_bad_key, set_key, clear_key,
  mode_k, set_limit, clear_limit, mode_l, change_operator, mode_o,
}

-- `MODE #channel`: the active modes, and the arguments of `k` and `l`.
unfoldable pub active_modes : Channel → Text
active_modes ch =
    let modes = line (
      text "+"
      ∷ (if ch.is_invite_only then text "i" else [])
      ∷ (if ch.topic_restricted then text "t" else [])
      ∷ (if is_empty ch.password then [] else text "k")
      ∷ (if ltb 0 ch.user_limit then text "l" else [])
      ∷ []) in
    if text_eq modes (text "+") then [] else modes

unfoldable pub mode_arguments : Channel → Text
mode_arguments ch = line (
    (if is_empty ch.password then [] else line (text " " ∷ ch.password ∷ []))
    ∷ (if ltb 0 ch.user_limit then line (text " " ∷ to_decimal ch.user_limit ∷ []) else [])
    ∷ [])

unfoldable pub show_modes : ℕ → Client → Text → Channel → Server → Server
show_modes fd who target ch s =
    tell fd
      (line (
        text ":server 324 "
        ∷ who.nickname
        ∷ text " "
        ∷ target
        ∷ text " "
        ∷ active_modes ch
        ∷ mode_arguments ch
        ∷ text "\r\n"
        ∷ []))
      s

-- The bytes that the first loop over the mode string lets pass.
unfoldable pub is_mode_byte : ℕ → Bool
is_mode_byte c =
    c == b'+' || c == b'-' || c == b'i' || c == b't' || c == b'k' || c == b'l' || c == b'o'

-- `isalpha` in the C locale.
abbrev pub is_alpha : ℕ → Bool
is_alpha c = leb b'A' c && leb c b'Z' || leb b'a' c && leb c b'z'

-- The first letter that is no mode; `[]` if there is none.
unfoldable pub unknown_mode : Text → Text
unknown_mode [] = []
unknown_mode (c ∷ cs) =
    let rest = unknown_mode cs in if not (is_mode_byte c) && is_alpha c then c ∷ [] else rest

-- One byte of the mode string, with the channel as it is by then.
unfoldable pub mode_on : ℕ → Client → Text → ℕ → Channel → ModeLoop → ModeLoop
mode_on fd who target c ch l =
    if c == b'+'
    then record l { is_plus = true }
    else if c == b'-'
    then record l { is_plus = false }
    else if c == b'i'
    then mode_i target ch l
    else if c == b't'
    then mode_t target ch l
    else if c == b'k'
    then mode_k fd who target ch l.args l
    else if c == b'l'
    then mode_l fd who target ch l.args l
    else if c == b'o'
    then mode_o fd who target ch l.args l
    else l

unfoldable pub mode_step : ℕ → Client → Text → ℕ → ModeLoop → ModeLoop
mode_step fd who target c l = elim (find_channel target l.server) [
  | none ↦ l
  | some ch ↦ mode_on fd who target c ch l
]

unfoldable pub mode_loop : ℕ → Client → Text → Text → ModeLoop → ModeLoop
mode_loop fd who target [] l = l
mode_loop fd who target (c ∷ cs) l = mode_loop fd who target cs (mode_step fd who target c l)

-- What was changed is announced to all members, the sender included.
unfoldable pub announce_modes : Client → Text → ModeLoop → Server
announce_modes who target l =
    if is_empty l.applied_modes then l.server else elim (find_channel target l.server) [
      | none ↦ l.server
      | some ch ↦
          broadcast ch.members
            (line (
              text ":"
              ∷ who.nickname
              ∷ text "!~"
              ∷ who.username
              ∷ text "@localhost MODE "
              ∷ target
              ∷ text " "
              ∷ l.applied_modes
              ∷ l.applied_params
              ∷ text "\r\n"
              ∷ []))
            none l.server
    ]

abbrev pub mode_start : List Text → Server → ModeLoop
mode_start args s = record {
  server = s;
  is_plus = true;
  args = args;
  applied_modes = [];
  applied_params = [];
  last_sign = 0;
}

unfoldable pub change_modes : ℕ → Client → Text → Text → List Text → Server → Server
change_modes fd who target mode_string args s =
    let unknown = unknown_mode mode_string in
    if not (is_empty unknown)
    then about_channel fd who (text ":server 472 ") unknown
        (text " :is not a recognised channel mode.\r\n") s
    else announce_modes who target (mode_loop fd who target mode_string (mode_start args s))

-- The parameters behind the target: none, or the mode string and its arguments.
unfoldable pub mode_of : ℕ → Client → Text → Channel → List Text → Server → Server
mode_of fd who target ch [] s = show_modes fd who target ch s
mode_of fd who target ch (mode_string ∷ args) s =
    if not (is_operator fd ch)
    then about_channel fd who (text ":server 482 ") target
        (text " :You're not channel operator\r\n") s
    else change_modes fd who target mode_string args s

unfoldable pub execute_mode : ℕ → Client → List Text → Server → Server
execute_mode fd who [] s =
    tell fd
      (line (text ":server 461 " ∷ who.nickname ∷ text " MODE :Not enough parameters\r\n" ∷ [])) s
execute_mode fd who (target ∷ rest) s =
    if not (get_or target 0 0 == b'#') && not (get_or target 0 0 == b'&')
    then s
    else elim (find_channel target s) [
      | none ↦ about_channel fd who (text ":server 403 ") target (text " :No such channel\r\n") s
      | some ch ↦ mode_of fd who target ch rest s
    ]
