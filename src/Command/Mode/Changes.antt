-- ===== src/Command/Mode/Changes.antt =====
-- src/commands/ModeCommand.cpp: what the loop over the mode string does for each letter.
use irc.Base.{
  ℕ, Bool, true, false, not, ◌&&◌, ◌||◌, List, [], ◌∷◌, ◌++◌, none, some, is_empty, all, ltb,
  contains, ◌==◌, if◌then◌else◌,
}
use irc.Text.{Text, text_eq, text_key}
use irc.Text.Decimal.{is_digit, atoi, is_positive_int, to_decimal}
use irc.Client.{Client}
use irc.Channel.{
  Channel, is_member, is_operator, add_operator, remove_operator, set_invite_only,
  set_topic_restricted, set_password, set_user_limit,
}
use irc.Server.{Server, text, line, tell, find_client_by_nick, update_channel}
use irc.Command.Kick.{about_channel, not_on_channel}

-- The variables of the second loop: `args` are the parameters from `paramIndex` on.
pub record ModeLoop : Type 0 where
  pub server : Server
  pub is_plus : Bool
  pub args : List Text
  pub applied_modes : Text
  pub applied_params : Text
  pub last_sign : ℕ

abbrev pub sign : Bool → ℕ
sign is_plus = if is_plus then b'+' else b'-'

-- A change that was made is noted, with its sign if that is not the last one.
unfoldable pub note : Bool → ℕ → Text → ModeLoop → ModeLoop
note is_plus letter param l = record l {
  applied_modes =
      l.applied_modes
      ++ (if l.last_sign == sign is_plus then [] else sign is_plus ∷ [])
      ++ letter ∷ [];
  applied_params = l.applied_params ++ param;
  last_sign = sign is_plus;
}

-- The server within the loop.
abbrev pub on_server : (Server → Server) → ModeLoop → ModeLoop
on_server f l = record l { server = f l.server }

abbrev pub parameter : Text → Text
parameter p = line (text " " ∷ p ∷ [])

unfoldable pub mode_i : Text → Channel → ModeLoop → ModeLoop
mode_i target ch l =
    if not (ch.is_invite_only && l.is_plus || not ch.is_invite_only && not l.is_plus)
    then note l.is_plus b'i' [] (on_server (update_channel target (set_invite_only l.is_plus)) l)
    else l

unfoldable pub mode_t : Text → Channel → ModeLoop → ModeLoop
mode_t target ch l =
    if not (ch.topic_restricted && l.is_plus || not ch.topic_restricted && not l.is_plus)
    then note l.is_plus b't' []
        (on_server (update_channel target (set_topic_restricted l.is_plus)) l)
    else l

-- A key may hold no space, tab or comma.
abbrev pub is_bad_key : Text → Bool
is_bad_key key = contains b' ' key || contains b'\t' key || contains b',' key

unfoldable pub set_key : ℕ → Client → Text → Channel → Text → ModeLoop → ModeLoop
set_key fd who target ch key l =
    if is_bad_key key
    then on_server
        (tell fd (
          line (
            text ":server 696 "
            ∷ who.nickname
            ∷ text " "
            ∷ target
            ∷ text " k "
            ∷ key
            ∷ text " :Invalid channel key (cannot contain spaces)\r\n"
            ∷ [])))
        l
    else if is_empty ch.password
    then note true b'k' (parameter key) (on_server (update_channel target (set_password key)) l)
    else on_server
        (about_channel fd who (text ":server 467 ") target (text " :Channel key already set\r\n")) l

unfoldable pub clear_key : Text → Channel → Text → ModeLoop → ModeLoop
clear_key target ch key l =
    if text_eq ch.password key
    then note false b'k' (text " *") (on_server (update_channel target (set_password [])) l)
    else l

unfoldable pub mode_k : ℕ → Client → Text → Channel → List Text → ModeLoop → ModeLoop
mode_k fd who target ch [] l = l
mode_k fd who target ch (key ∷ args) l =
    let taken : ModeLoop = record l { args = args } in
    if l.is_plus then set_key fd who target ch key taken else clear_key target ch key taken

unfoldable pub set_limit : ℕ → Client → Text → Channel → Text → ModeLoop → ModeLoop
set_limit fd who target ch limit_str l =
    if not (all is_digit limit_str) || is_empty limit_str
    then on_server
        (tell fd (
          line (
            text ":server 696 "
            ∷ who.nickname
            ∷ text " "
            ∷ target
            ∷ text " l "
            ∷ limit_str
            ∷ text " :Invalid limit mode parameter. Syntax: <limit>.\r\n"
            ∷ [])))
        l
    else if is_positive_int (atoi limit_str) && not (ch.user_limit == atoi limit_str)
    then note true b'l' (parameter (to_decimal (atoi limit_str)))
        (on_server (update_channel target (set_user_limit (atoi limit_str))) l)
    else l

unfoldable pub clear_limit : Text → Channel → ModeLoop → ModeLoop
clear_limit target ch l =
    if ltb 0 ch.user_limit
    then note false b'l' [] (on_server (update_channel target (set_user_limit 0)) l)
    else l

-- Only `+l` takes a parameter.
unfoldable pub mode_l : ℕ → Client → Text → Channel → List Text → ModeLoop → ModeLoop
mode_l fd who target ch [] l = if l.is_plus then l else clear_limit target ch l
mode_l fd who target ch (limit_str ∷ args) l =
    if l.is_plus
    then set_limit fd who target ch limit_str (record l { args = args })
    else clear_limit target ch l

unfoldable pub change_operator : Text → Channel → Text → ℕ → ModeLoop → ModeLoop
change_operator target ch target_nick client l =
    if l.is_plus && not (is_operator client ch)
    then note true b'o' (parameter target_nick)
        (on_server (update_channel target (add_operator client)) l)
    else if not l.is_plus && is_operator client ch
    then note false b'o' (parameter target_nick)
        (on_server (update_channel target (remove_operator client)) l)
    else l

unfoldable pub mode_o : ℕ → Client → Text → Channel → List Text → ModeLoop → ModeLoop
mode_o fd who target ch [] l = l
mode_o fd who target ch (target_nick ∷ args) l =
    let taken : ModeLoop = record l { args = args } in
    elim (find_client_by_nick target_nick l.server) [
      | none ↦ on_server (not_on_channel fd who target_nick target) taken
      | some client ↦
          if is_member client ch
          then change_operator target ch target_nick client taken
          else on_server (not_on_channel fd who target_nick target) taken
    ]
