-- ===== src/Bot/Registration.antt =====
-- The login of the bot: its three lines, in the server, and what the answer makes it do.
use irc.Base.{
  ℕ, ◌==◌, Bool-cases, inl, inr, ◌≡◌, refl, ◌∙◌, true, false, List, [], ◌∷◌, ◌++◌, some, arith,
  is_empty,
}
use irc.Text.{Text, codes, int_key, text_key, text_eq}
use irc.Text.Casemap.{to_upper_case, to_irc_lower_case}
use irc.Text.Tokens.{words}
use irc.Text.Search.{Free}
use irc.Map.{Map, lookup, modify}
use irc.Map.Laws.{lookup-modify}
use irc.Parser.{parse}
use irc.Client.{Client, is_registered, send_message}
use irc.Server.{Server, text, line, tell, update_client, find_nick, find_client_by_nick}
use irc.Client.{set_pass_ok}
use irc.Command.Nick.{
  set_nick, is_valid_nickname, is_taken_by_other, announce_nick, change_nick, execute_nick,
}
use irc.Command.User.{set_user, is_valid_username, greet, welcome, execute_user}
use irc.Command.Dispatch.{nick, user, setup_commands, execute, run_command, process_message}
use irc.Command.Dispatch
use irc.Arguments.{is_valid_password}
use irc.Bot.{bot_nickname, pass_line, nick_line, user_line, process_line, send_line}
use irc.Bot.Login.{process_line-pass_line}

abbrev pub bot_user : Text
bot_user = text "ftbot"

parse-nick_line :
    parse nick_line ≡ record { prefix = []; command = text "NICK"; params = bot_nickname ∷ [] }
unfolding nick_line line text parse irc.Text.strip_cr irc.Text.find_text words to_upper_case
parse-nick_line = refl

parse-user_line : parse user_line ≡ record {
  prefix = [];
  command = text "USER";
  params = bot_user ∷ text "0" ∷ text "*" ∷ text "ft_irc bonus bot" ∷ [];
}
unfolding user_line line text parse irc.Text.strip_cr irc.Text.find_text words to_upper_case
parse-user_line = refl

nick_command : lookup (text "NICK") setup_commands ≡ some nick
unfolding setup_commands text irc.Map.lookup irc.Map.insert text_eq irc.Text.text_lt
nick_command = refl

user_command : lookup (text "USER") setup_commands ≡ some user
unfolding setup_commands text irc.Map.lookup irc.Map.insert text_eq irc.Text.text_lt
user_command = refl

process_nick :
    (fd : ℕ) (who : Client) (params : List Text) (s : Server)
    → who.pass_ok ≡ true
    → process_message fd who (record { prefix = []; command = text "NICK"; params = params }) s
      ≡ execute_nick fd who params s
unfolding process_message run_command execute text text_eq
process_nick fd who params s p = rw (nick_command, p, process_message) refl

process_user :
    (fd : ℕ) (who : Client) (params : List Text) (s : Server)
    → who.pass_ok ≡ true
    → process_message fd who (record { prefix = []; command = text "USER"; params = params }) s
      ≡ execute_user fd who params s
unfolding process_message run_command execute text text_eq
process_user fd who params s p = rw (user_command, p, process_message) refl

bot_nickname_valid : (is_valid_nickname bot_nickname ≡ true) × (is_empty bot_nickname ≡ false)
unfolding text is_valid_nickname
bot_nickname_valid = (refl, refl)

bot_user_valid : is_valid_username bot_user ≡ true
unfolding text is_valid_username
bot_user_valid = refl

free_nick :
    (fd : ℕ) (who : Client) (s : Server)
    → who.user_set ≡ false
    → is_taken_by_other fd bot_nickname s ≡ false
    → execute_nick fd who (bot_nickname ∷ []) s ≡ update_client fd (set_nick bot_nickname) s
unfolding execute_nick change_nick announce_nick greet is_registered
free_nick fd who s u free = ground (arith, bot_nickname_valid)

first_user :
    (fd : ℕ) (who : Client) (s : Server)
    → who.pass_ok ≡ true
    → who.nick_set ≡ true
    → who.user_set ≡ false
    → execute_user fd who (bot_user ∷ text "0" ∷ text "*" ∷ text "ft_irc bonus bot" ∷ []) s
      ≡ tell fd (welcome (set_user bot_user who)) (update_client fd (set_user bot_user) s)
unfolding execute_user greet is_registered
first_user fd who s p n u = ground (arith, bot_user_valid)

pub process_line-nick_line :
    (fd : ℕ) (who : Client) (s : Server)
    → lookup fd s.clients ≡ some who
    → who.pass_ok ≡ true
    → who.user_set ≡ false
    → is_taken_by_other fd bot_nickname s ≡ false
    → Dispatch.process_line fd nick_line s ≡ update_client fd (set_nick bot_nickname) s
unfolding Dispatch.process_line
process_line-nick_line fd who s there p u free =
    rw (there, parse-nick_line, Dispatch.process_line)
      (process_nick fd who (bot_nickname ∷ []) s p ∙ free_nick fd who s u free)

pub process_line-user_line :
    (fd : ℕ) (who : Client) (s : Server)
    → lookup fd s.clients ≡ some who
    → who.pass_ok ≡ true
    → who.nick_set ≡ true
    → who.user_set ≡ false
    → Dispatch.process_line fd user_line s
      ≡ tell fd (welcome (set_user bot_user who)) (update_client fd (set_user bot_user) s)
unfolding Dispatch.process_line
process_line-user_line fd who s there p n u =
    rw (there, parse-user_line, Dispatch.process_line)
      (process_user fd who _ s p ∙ first_user fd who s p n u)

-- A write to a client that keeps its nickname and whether it is dead keeps the search.
find_nick-modify :
    (n : Text) (fd : ℕ) (f : Client → Client) (m : Map ℕ Client)
    → ((c : Client) → lookup fd m ≡ some c → ((f c).dead ≡ c.dead) × ((f c).nickname ≡ c.nickname))
    → find_nick n (modify fd f m) ≡ find_nick n m
unfolding find_nick modify lookup
find_nick-modify n fd f [] keep = refl
find_nick-modify n fd f ((k, c) ∷ m) keep = elim (Bool-cases (k == fd)) [
  | inl own ↦ let (d, e) = keep c (ground (arith, own)) in ground (arith, own, d, e)
  | inr other ↦
      ground
        (arith, other, find_nick-modify n fd f m (λ b there. keep b (ground (arith, other, there))))
]

pub still_free :
    (fd : ℕ) (f : Client → Client) (s : Server)
    → ((c : Client)
        → lookup fd s.clients ≡ some c
        → ((f c).dead ≡ c.dead) × ((f c).nickname ≡ c.nickname))
    → is_taken_by_other fd bot_nickname s ≡ false
    → is_taken_by_other fd bot_nickname (update_client fd f s) ≡ false
unfolding find_client_by_nick update_client
still_free fd f s keep free =
    ground (arith, free, find_nick-modify (to_irc_lower_case bot_nickname) fd f s.clients keep)

pub written :
    (fd : ℕ) (f : Client → Client) (s : Server) (c : Client)
    → lookup fd s.clients ≡ some c
    → lookup fd (update_client fd f s).clients ≡ some (f c)
unfolding update_client
written fd f s c e = ground (arith, e, lookup-modify fd fd f s.clients)

pub told :
    (fd : ℕ) (m : Text) (s : Server) (c : Client)
    → lookup fd s.clients ≡ some c
    → lookup fd (tell fd m s).clients ≡ some (send_message m c)
unfolding tell
told fd m s c e = written fd (send_message m) s c e

-- The client after the three lines.
abbrev pub enrolled : Client → Client
enrolled who = set_user bot_user (set_nick bot_nickname (set_pass_ok true who))

-- The welcome of the server to the bot, without CR LF.
abbrev pub welcome_line : Text
welcome_line = text ":server 001 ft_bot :Welcome to the ft_irc Network, ft_bot!ftbot@localhost"

joins_channel :
    (channel : Text)
    → process_line channel welcome_line ≡ send_line (line (text "JOIN " ∷ channel ∷ []))
unfolding process_line text irc.Text.starts_with irc.Text.find_text
joins_channel channel = refl

-- The server after the three lines of the client `fd`.
abbrev pub logged_in : ℕ → Server → Server
logged_in fd s =
    Dispatch.process_line fd user_line
      (Dispatch.process_line fd nick_line (Dispatch.process_line fd (pass_line s.password) s))

-- If the command line accepts the password of the server and it has no NUL, and no other client has
-- the nickname of the bot: the three lines of the bot, from a client of the server that has sent
-- none of them yet, make it a registered client under this nickname, to which the welcome has been
-- sent; and the welcome makes the bot ask to join its channel.
pub lookup-logged_in :
    (fd : ℕ) (who : Client) (s : Server) (channel : Text)
    → is_valid_password (some s.password) ≡ true
    → Free 0 s.password
    → lookup fd s.clients ≡ some who
    → who.pass_ok ≡ false
    → who.user_set ≡ false
    → is_taken_by_other fd bot_nickname s ≡ false
    → (lookup fd (logged_in fd s).clients
        ≡ some (send_message (welcome (enrolled who)) (enrolled who)))
      × (is_registered (enrolled who) ≡ true)
      × ((enrolled who).nickname ≡ bot_nickname)
      × (welcome (enrolled who) ≡ welcome_line ++ text "\r\n")
      × (process_line channel welcome_line ≡ send_line (line (text "JOIN " ∷ channel ∷ [])))
lookup-logged_in fd who s channel v z there p u free =
    let passed : Server = update_client fd (set_pass_ok true) s in
    let named : Server = update_client fd (set_nick bot_nickname) passed in
    let in_passed = written fd (set_pass_ok true) s who there in
    let in_named = written fd (set_nick bot_nickname) passed (set_pass_ok true who) in_passed in
    let first = (process_line-pass_line fd who s v z there p).1 in
    let second =
      process_line-nick_line fd (set_pass_ok true who) passed in_passed refl u
        (still_free fd (set_pass_ok true) s (λ c l. (refl, refl)) free) in
    let third =
      process_line-user_line fd (set_nick bot_nickname (set_pass_ok true who)) named in_named refl
        refl u in
    (
      rw (first, second, third)
          (told fd (welcome (enrolled who)) (update_client fd (set_user bot_user) named)
            (enrolled who)
            (written fd (set_user bot_user) named (set_nick bot_nickname (set_pass_ok true who))
              in_named)),
      unfold is_registered in refl,
      refl,
      unfold welcome in unfold line in unfold text in refl,
      joins_channel channel,
    )
