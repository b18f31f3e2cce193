-- ===== src/Bot/Reply.antt =====
-- The greeting of the bot, as the server parses it.
use irc.Base.{
  ◌≤◌, ◌≡◌, refl, sym, ap, ◌∙◌, true, false, not, ◌||◌, [], ◌∷◌, ◌++◌, append-nil, append_assoc,
  arith, length, length-append, all, is_empty, contains,
}
use irc.Text.{Text, cr, lf}
use irc.Text.Search.{Free}
use irc.Text.Casemap.{to_upper_case}
use irc.Text.Tokens.{is_space}
use irc.Text.Tokens.Laws.{all-append}
use irc.Parser.{parse}
use irc.Parser.RoundTrip.{Plain, parse-wire}
use irc.Client.{Client, is_control}
use irc.Server.{text, line}
use irc.Command.Nick.{is_valid_nickname, valid_first_characters, valid_remaining_characters}
use irc.Command.Join.{is_valid_channel_name}
use irc.Bot.Names.{Newcomer, nickname-Free}
use irc.Bot.Greeting.{greeting}
use irc.Bot.Login.{last-Free, uncontrolled}
use irc.Bot.Sending.{Sendable}

no_controls :
    (contains 0 valid_first_characters || contains 0 valid_remaining_characters ≡ false)
    × (contains cr valid_first_characters || contains cr valid_remaining_characters ≡ false)
    × (contains lf valid_first_characters || contains lf valid_remaining_characters ≡ false)
unfolding valid_remaining_characters
no_controls = (refl, refl, refl)

short_nickname : (nickname : Text) → is_valid_nickname nickname ≡ true → length nickname ≤ 9
unfolding is_valid_nickname
short_nickname nickname v = ground arith

channel_shape :
    (name : Text)
    → is_valid_channel_name name ≡ true
    → (is_empty name ≡ false) × (length name ≤ 50) × Plain name
unfolding is_valid_channel_name
channel_shape name v = ground arith

greeting_lem :
    (name nickname : Text)
    → greeting name nickname
      ≡ text "PRIVMSG " ++ (name ++ (text " :" ++ (text "Hello @" ++ nickname)))
unfolding greeting line text
greeting_lem name nickname =
    ap (λ t. text "PRIVMSG " ++ (name ++ (text " :Hello @" ++ t))) (append-nil nickname)

clean_nickname :
    (nickname : Text)
    → is_valid_nickname nickname ≡ true
    → (all (λ b. not (is_control b)) nickname ≡ true) × Free cr nickname
clean_nickname nickname v =
    let (z, r, n) = no_controls in
    let no_cr = nickname-Free cr nickname (ground arith) (ground arith) v in
    (
      uncontrolled nickname (nickname-Free 0 nickname (ground arith) (ground arith) v) no_cr
          (nickname-Free lf nickname (ground arith) (ground arith) v),
      no_cr,
    )

-- For a user with an accepted nickname and user name, other than the bot, and a channel name that the
-- server accepts and that has no white space and no NUL, CR or LF: the greeting is a line that the
-- bot can send, and the server parses it as PRIVMSG with two parameters: the channel, and the
-- greeting.
pub greeting-parsed :
    (who : Client) (name : Text)
    → Newcomer who name
    → all (λ b. not (is_space b)) name ≡ true
    → all (λ b. not (is_control b)) name ≡ true
    → Sendable (greeting name who.nickname)
      × (parse (greeting name who.nickname) ≡ record {
        prefix = [];
        command = text "PRIVMSG";
        params = name ∷ (text "Hello @" ++ who.nickname) ∷ [];
      })
unfolding text to_upper_case is_space
greeting-parsed who name n spaces controls =
    let nick : Text = who.nickname in
    let (some_name, short, plain) = channel_shape name n.name_valid in
    let (clean, no_cr) = clean_nickname nick n.nickname_valid in
    let hello : Text = text "Hello @" ++ nick in
    rw (greeting_lem name nick) (
      record {
        some_byte = refl;
        short = omega (
          arith,
          length-append name (text " :" ++ hello),
          short,
          short_nickname nick n.nickname_valid,
        );
        clean = ground (arith, all-append (λ b. not (is_control b)) name (text " :" ++ hello));
      },
      ap parse (sym (append_assoc (text "PRIVMSG ") name (text " :" ++ hello)))
          ∙ parse-wire [] (text "PRIVMSG") (name ∷ []) hello refl ((refl, refl), refl)
              (((some_name, spaces), plain), tt) (last-Free cr b'@' nick refl no_cr),
    )
