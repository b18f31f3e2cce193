-- ===== src/Bot/Handshake.antt =====
-- The login from one end to the other: what the bot sends, received by the server.
use irc.Base.{◌≡◌, refl, sym, ap, ◌∙◌, true, false, [], ◌++◌, append_assoc, append-nil, some, ℕ}
use irc.Text.{Text, int_key, text_key}
use irc.Text.Search.{Free}
use irc.Map.{lookup}
use irc.Client.{Client, is_registered}
use irc.Server.{Server}
use irc.Command.Nick.{is_taken_by_other}
use irc.Arguments.{is_valid_password}
use irc.Loop.{bytes, handle_client_read}
use irc.Bot.{bot_nickname, pass_line, nick_line, user_line, send_line}
use irc.Bot.Socket.{Wire, Result, done, raised, blocked, Io, ◌>>◌}
use irc.Bot.Sending.{Part-whole, send_line-Part}
use irc.Bot.Registration.{enrolled}
use irc.Bot.Reading.{framed, reading}
use irc.Bot.Admission.{login_bytes, welcomed, lookup-handle_client_read}

-- What the bot sends when it has connected.
abbrev pub send_login : Text → Io (Unit {0})
send_login password = send_line (pass_line password) >> send_line nick_line >> send_line user_line

-- The bytes on a wire that was empty, once these lines are sent.
abbrev pub sent_bytes : Text → Wire → Text
sent_bytes password w = (send_login password w).1.sent

sent_whole :
    (l : Text) (w : Wire)
    → (send_line l w).0 ≡ done tt
    → (send_line l w).1.sent ≡ w.sent ++ framed l
sent_whole l w e = Part-whole (framed l) w.sent _ _ (send_line-Part l w).0 e

-- A line that is sent after another action.
then_sent :
    (m : Io (Unit {0})) (l : Text) (w : Wire)
    → ((m >> send_line l) w).0 ≡ done tt
    → ((m w).0 ≡ done tt) × (((m >> send_line l) w).1.sent ≡ (m w).1.sent ++ framed l)
then_sent m l w e = continued (m w).0 (m w).1 e
  where
    continued :
        (r : Result (Unit {0})) (v : Wire)
        → (elim r as (λ x. Result (Unit {0}) × Wire) [
          | done a ↦ send_line l v
          | raised why ↦ (raised why, v)
          | blocked ↦ (blocked, v)
        ]).0
          ≡ done tt
        → (r ≡ done tt)
          × ((elim r as (λ x. Result (Unit {0}) × Wire) [
            | done a ↦ send_line l v
            | raised why ↦ (raised why, v)
            | blocked ↦ (blocked, v)
          ]).1.sent
              ≡ v.sent ++ framed l)
    continued (done tt) v e = (refl, sent_whole l v e)
    continued (raised why) v e = cc
    continued blocked v e = cc

sent_login :
    (password : Text) (w : Wire)
    → (send_login password w).0 ≡ done tt
    → w.sent ≡ []
    → sent_bytes password w ≡ login_bytes password
sent_login password w e empty =
    let (both, third) =
      then_sent (send_line (pass_line password) >> send_line nick_line) user_line w e in
    let (first, second) = then_sent (send_line (pass_line password)) nick_line w both in
    third
    ∙ ap (λ t. t ++ framed user_line)
        (second
          ∙ ap (λ t. t ++ framed nick_line)
              (sent_whole (pass_line password) w first
                ∙ ap (λ t. t ++ framed (pass_line password)) empty))
    ∙ append_assoc (framed (pass_line password)) (framed nick_line) (framed user_line)
    ∙ ap (λ t. framed (pass_line password) ++ (framed nick_line ++ t))
        (sym (append-nil (framed user_line)))

-- If the three lines of the bot, with the password of the server, are sent on an empty wire, whatever
-- `send` answers meanwhile, and the server receives them in one chunk from a client of the server that
-- has sent nothing before and is neither dead nor closing, and if the command line accepts the
-- password, it has no NUL, and no other client has the nickname of the bot: then the client is
-- registered under this nickname, its buffer is empty, and the welcome has been sent to it.
pub lookup-sent_login :
    (fd : ℕ) (who : Client) (s : Server) (w : Wire)
    → (send_login s.password w).0 ≡ done tt
    → w.sent ≡ []
    → is_valid_password (some s.password) ≡ true
    → Free 0 s.password
    → lookup fd s.clients ≡ some who
    → who.pass_ok ≡ false
    → who.user_set ≡ false
    → who.dead ≡ false
    → who.closing ≡ false
    → who.recv_buffer ≡ []
    → is_taken_by_other fd bot_nickname s ≡ false
    → (lookup fd (handle_client_read fd (bytes (sent_bytes s.password w)) s).clients
        ≡ some (welcomed (reading [] who)))
      × (is_registered (enrolled who) ≡ true)
      × ((enrolled who).nickname ≡ bot_nickname)
lookup-sent_login fd who s w sent nothing v z there p u alive on empty free =
    rw (sent_login s.password w sent nothing)
      (lookup-handle_client_read fd who s v z there p u alive on empty free)
