-- ===== src/Bot/Greeting.antt =====
-- The bot greets a user who joins its channel, told by the message in which the server announces
-- the join.
use irc.Base.{
  ℕ, suc, ◌+◌, ◌-◌, ◌≡◌, refl, sym, ap, ◌∙◌, Bool, true, false, not, [], ◌∷◌, ◌++◌, append-nil,
  append_assoc, none, some, arith, length, length-append, is_empty, get_or, take, drop, ◌==◌, ltb,
  take-length-append, drop-length-append,
}
use irc.Text.{Text, codes, find_byte, find_text, starts_with, text_eq, text_eq_refl}
use irc.Text.Search.{Free, find_byte-append}
use irc.Text.Tokens.Laws.{all-append}
use irc.Client.{Client}
use irc.Server.{text, line}
use irc.Command.Common.{user_prefix}
use irc.Command.Nick.{is_valid_nickname}
use irc.Command.Join.{join_message}
use irc.Bot.{greet_user, greet_joined_user, process_line, send_line, holds, bot_nickname}
use irc.Bot.Names.{
  Newcomer, find_text-append_some, find_text-append_none, find_text-Free, nickname-Free,
  username-Free, channel-Free, no_space, no_bang,
}

-- The line by which the server announces that a client has joined.
abbrev pub announcement : Client → Text → Text
announcement who name = user_prefix who ++ (text " JOIN :" ++ name)

join_message-announcement :
    (who : Client) (name : Text) → join_message who name ≡ announcement who name ++ text "\r\n"
unfolding join_message line text
join_message-announcement who name =
    ap (λ u. user_prefix who ++ (text " JOIN :" ++ (name ++ u))) (append-nil (text "\r\n"))
    ∙ sym (append_assoc (user_prefix who) (text " JOIN :" ++ name) (text "\r\n"))

joining : Text → Text
joining name = text " JOIN :" ++ name

-- The bytes of the announcement behind the nickname.
behind : Client → Text → Text
behind who name = (who.username ++ text "@localhost") ++ joining name

announcement_parts :
    (who : Client) (name : Text)
    → announcement who name ≡ (b':' ∷ who.nickname) ++ b'!' ∷ behind who name
unfolding user_prefix line text joining behind
announcement_parts who name =
    append_assoc (b':' ∷ who.nickname) (b'!' ∷ (who.username ++ text "@localhost")) (joining name)

user_prefix-Free : (who : Client) (name : Text) → Newcomer who name → Free b' ' (user_prefix who)
unfolding user_prefix line text
user_prefix-Free who name n =
    let spaced : ℕ → Bool = λ c. not (c == b' ') in
    ground (
      arith,
      no_space,
      all-append spaced who.nickname (b'!' ∷ (who.username ++ text "@localhost")),
      all-append spaced who.username (text "@localhost"),
      nickname-Free b' ' who.nickname,
      n.nickname_valid,
      username-Free who.username n.username_valid,
    )

-- The only word between spaces is JOIN.
no_reply :
    (who : Client) (name : Text) (a b c : ℕ)
    → Newcomer who name
    → (b'J' == a) ≡ false
    → (b':' == a) ≡ false
    → find_text (b' ' ∷ a ∷ b ∷ c ∷ b' ' ∷ []) (announcement who name) ≡ none
unfolding text find_text starts_with
no_reply who name a b c n h k =
    let tail : Text = a ∷ b ∷ c ∷ b' ' ∷ [] in
    let free : Free b' ' (b':' ∷ name) = channel-Free name n.name_valid in
    let last : find_text (b' ' ∷ tail) (b' ' ∷ b':' ∷ name) ≡ none =
      ground (arith, find_text-Free b' ' tail (b':' ∷ name) free) in
    find_text-append_none b' ' tail (user_prefix who) (text " JOIN :" ++ name)
      (user_prefix-Free who name n)
      (ground
        (arith, find_text-append_none b' ' tail (codes "JOIN") (b' ' ∷ b':' ∷ name) refl last))

join_found :
    (who : Client) (name : Text)
    → Newcomer who name
    → find_text (text " JOIN ") (announcement who name) ≡ some (length (user_prefix who))
unfolding text find_text starts_with
join_found who name n =
    find_text-append_some b' ' (codes "JOIN ") (user_prefix who) (text " JOIN :" ++ name)
      (user_prefix-Free who name n) refl

bang_found :
    (who : Client) (name : Text)
    → Newcomer who name
    → find_byte b'!' (announcement who name) ≡ some (suc (length who.nickname))
bang_found who name n = rw (announcement_parts who name) (
    find_byte-append b'!' (b':' ∷ who.nickname) (behind who name)
      (ground (arith, no_bang, nickname-Free b'!' who.nickname, n.nickname_valid)))

-- What the tests of `greetJoinedUser` lead to.
greeted :
    (channel message : Text) {join_pos nick_end : ℕ}
    → is_empty message ≡ false
    → (get_or message 0 0 == b':') ≡ true
    → find_text (text " JOIN ") message ≡ some join_pos
    → find_byte b'!' message ≡ some nick_end
    → ltb join_pos nick_end ≡ false
    → greet_joined_user channel message
      ≡ greet_user channel (take (nick_end - 1) (drop 1 message)) (drop (join_pos + 6) message)
unfolding greet_joined_user
greeted channel message {join_pos} {nick_end} m c j b l = rw (m, c, j, b, l, greet_joined_user)

-- The bot's answer, without CR LF.
unfoldable pub greeting : Text → Text → Text
greeting channel nickname = line (text "PRIVMSG " ∷ channel ∷ text " :Hello @" ∷ nickname ∷ [])

greet_user_lem :
    (name nickname : Text)
    → is_empty nickname ≡ false
    → text_eq nickname bot_nickname ≡ false
    → greet_user name nickname (b':' ∷ name) ≡ send_line (greeting name nickname)
unfolding greet_user greeting
greet_user_lem name nickname n b = rw (n, b, text_eq_refl name, greet_user)

nickname_cut :
    (who : Client) (name : Text)
    → take (suc (length who.nickname) - 1) (drop 1 (announcement who name)) ≡ who.nickname
nickname_cut who name = rw (announcement_parts who name) (
    ap (λ k. take k (who.nickname ++ b'!' ∷ behind who name)) (omega arith)
    ∙ take-length-append who.nickname (b'!' ∷ behind who name))

channel_cut :
    (who : Client) (name : Text)
    → drop (length (user_prefix who) + 6) (announcement who name) ≡ b':' ∷ name
unfolding text
channel_cut who name = drop-length-append (user_prefix who) (text " JOIN :" ++ name) 6

prefix_long : (who : Client) → ltb (length (user_prefix who)) (suc (length who.nickname)) ≡ false
unfolding user_prefix line text
prefix_long who =
    ground (arith, length-append who.nickname (b'!' ∷ (who.username ++ text "@localhost")))

some_nickname : (nickname : Text) → is_valid_nickname nickname ≡ true → is_empty nickname ≡ false
unfolding is_valid_nickname
some_nickname nickname v = ground arith

colon_first :
    (who : Client) (name : Text)
    → (is_empty (announcement who name) ≡ false)
      × ((get_or (announcement who name) 0 0 == b':') ≡ true)
      × (starts_with (text "PING ") (announcement who name) ≡ false)
unfolding user_prefix line text starts_with
colon_first who name = (refl, refl, refl)

no_number :
    (channel message : Text)
    → starts_with (text "PING ") message ≡ false
    → find_text (text " 001 ") message ≡ none
    → find_text (text " 433 ") message ≡ none
    → find_text (text " 464 ") message ≡ none
    → process_line channel message ≡ greet_joined_user channel message
unfolding process_line
no_number channel message p a b c = rw (p, a, b, c, process_line, holds)

-- When a user with accepted names, other than the bot, joins a channel with an accepted name, the
-- message by which the server announces it is a line with CR LF, and this line makes the bot of
-- that channel send its greeting.
pub process_line-announcement :
    (who : Client) (name : Text)
    → Newcomer who name
    → (join_message who name ≡ announcement who name ++ text "\r\n")
      × (process_line name (announcement who name) ≡ send_line (greeting name who.nickname))
unfolding text
process_line-announcement who name n =
    let (some_bytes, colon, no_ping) = colon_first who name in
    let message : Text = announcement who name in
    (
      join_message-announcement who name,
      no_number name message no_ping (no_reply who name b'0' b'0' b'1' n refl refl)
            (no_reply who name b'4' b'3' b'3' n refl refl)
            (no_reply who name b'4' b'6' b'4' n refl refl)
          ∙ greeted name message some_bytes colon (join_found who name n) (bang_found who name n)
              (prefix_long who)
          ∙ ap (λ nick. greet_user name nick (drop (length (user_prefix who) + 6) message))
              (nickname_cut who name)
          ∙ ap (greet_user name who.nickname) (channel_cut who name)
          ∙ greet_user_lem name who.nickname (some_nickname who.nickname n.nickname_valid) n.no_bot,
    )
