-- ===== src/Policy/Invariant/Clients.antt =====
-- Every client stands under its own descriptor, within the limits of its buffers, and with names
-- that NICK and USER have accepted.
use irc.Base.{ℕ, ◌≡◌, true, false, arith, List, []}
use irc.Text.{Text, int_key, text_key}
use irc.Map.Laws.{Entries, modify-Entries}
use irc.Client.{Client, send_message, mark_closing, record_failed_pass_attempt}
use irc.Client.Outbound.{SendBounded, send_message-SendBounded}
use irc.Client.Inbound.{RecvBounded}
use irc.Client.Evolves.{Told, send_message-Told, mark_closing-Told}
use irc.Server.{Server, tell, remove_channel, update_client, update_channel}
use irc.Command.User.{is_valid_username}
use irc.Command.Nick.{is_valid_nickname}
use irc.Policy
use irc.Policy.Invariant.Channels.{clients-create_channel}

pub record ClientOk (fd : ℕ) (c : Client) : Type 0 where
  pub own_fd : c.fd ≡ fd
  pub send_bounded : SendBounded c
  pub recv_bounded : RecvBounded c
  pub nick_valid : c.nick_set ≡ true → is_valid_nickname c.nickname ≡ true
  pub nick_unset : c.nick_set ≡ false → c.nickname ≡ []
  pub user_valid : c.user_set ≡ true → is_valid_username c.username ≡ true

abbrev pub ClientsOk : Server → Type 0
ClientsOk s = Entries ClientOk s.clients

pub Told-ClientOk :
    (fd : ℕ) (c d : Client) → Told c d → SendBounded d → ClientOk fd c → ClientOk fd d
Told-ClientOk fd c d t b o = record {
  own_fd = ground (arith, o.own_fd);
  send_bounded = b;
  recv_bounded = ground (arith, o.recv_bounded);
  nick_valid = λ h. ground (arith, o.nick_valid);
  nick_unset = λ h. ground (arith, o.nick_unset);
  user_valid = λ h. ground (arith, o.user_valid);
}

pub update_client-ClientsOk :
    (fd : ℕ) (f : Client → Client) (s : Server)
    → ((c : Client) → ClientOk fd c → ClientOk fd (f c))
    → ClientsOk s
    → ClientsOk (update_client fd f s)
unfolding update_client
update_client-ClientsOk fd f s keep h = modify-Entries ClientOk fd f s.clients (λ c _ o. keep c o) h

pub tell-ClientsOk : (x : ℕ) (m : Text) (s : Server) → ClientsOk s → ClientsOk (tell x m s)
unfolding tell
tell-ClientsOk x m s h =
    update_client-ClientsOk x (send_message m) s
      (λ c o.
        Told-ClientOk x c (send_message m c) (send_message-Told m c)
          (send_message-SendBounded m c o.send_bounded) o)
      h

pub mark_closing-ClientOk :
    (fd : ℕ) (reason : Text) (c : Client) → ClientOk fd c → ClientOk fd (mark_closing reason c)
mark_closing-ClientOk fd reason c o =
    Told-ClientOk fd c (mark_closing reason c) (mark_closing-Told reason c)
      (unfold mark_closing in ground (arith, o.send_bounded)) o

record_failed-ClientOk :
    (fd : ℕ) (c : Client) → ClientOk fd c → ClientOk fd (record_failed_pass_attempt c)
unfolding record_failed_pass_attempt
record_failed-ClientOk fd c o = record {
  own_fd = ground (arith, o.own_fd);
  send_bounded = ground (arith, o.send_bounded);
  recv_bounded = ground (arith, o.recv_bounded);
  nick_valid = λ h. ground (arith, o.nick_valid);
  nick_unset = λ h. ground (arith, o.nick_unset);
  user_valid = λ h. ground (arith, o.user_valid);
}

module _ {fd : ℕ} {who : Client} {params : List Text} {start : Server} where
  pub Act-ClientsOk :
      {s t : Server} → Policy.Act fd who params start s t → ClientsOk s → ClientsOk t
  unfolding remove_channel update_channel
  Act-ClientsOk {s} (Policy.tells x m) h = tell-ClientsOk x m s h
  Act-ClientsOk {s} (Policy.authenticates p) h =
      update_client-ClientsOk fd (λ c. record c { pass_ok = true }) s
        (λ c o. record {
          own_fd = o.own_fd;
          send_bounded = o.send_bounded;
          recv_bounded = o.recv_bounded;
          nick_valid = o.nick_valid;
          nick_unset = o.nick_unset;
          user_valid = o.user_valid;
        })
        h
  Act-ClientsOk {s} Policy.fails_pass h =
      update_client-ClientsOk fd record_failed_pass_attempt s (record_failed-ClientOk fd) h
  Act-ClientsOk {s} (Policy.closes reason) h =
      update_client-ClientsOk fd (mark_closing reason) s (mark_closing-ClientOk fd reason) h
  Act-ClientsOk {s} (Policy.identifies u p a v) h =
      update_client-ClientsOk fd (λ c. record c { username = u; user_set = true }) s
        (λ c o. record {
          own_fd = o.own_fd;
          send_bounded = o.send_bounded;
          recv_bounded = o.recv_bounded;
          nick_valid = o.nick_valid;
          nick_unset = o.nick_unset;
          user_valid = λ _. v;
        })
        h
  Act-ClientsOk {s} (Policy.renames n p a v f) h =
      update_client-ClientsOk fd (λ c. record c { nickname = n; nick_set = true }) s
        (λ c o. record {
          own_fd = o.own_fd;
          send_bounded = o.send_bounded;
          recv_bounded = o.recv_bounded;
          nick_valid = λ _. v;
          nick_unset = λ e. cc;
          user_valid = o.user_valid;
        })
        h
  Act-ClientsOk {s} (Policy.creates name r a v e) h = rw (clients-create_channel name s) h
  Act-ClientsOk {s} (Policy.joins name ch r e m) h = h
  Act-ClientsOk {s} (Policy.leaves name r a) h = h
  Act-ClientsOk {s} (Policy.removes name ch r e z) h = h
  Act-ClientsOk {s} (Policy.kicks name ch target r a e op m) h = h
  Act-ClientsOk {s} (Policy.invites name ch target r a e m o i) h = h
  Act-ClientsOk {s} (Policy.retopics name topic ch r a e m op) h = h
  Act-ClientsOk {s} (Policy.sets name change r a op) h = h
  Act-ClientsOk {s} (Policy.promotes name ch target r a op e m) h = h
  Act-ClientsOk {s} (Policy.demotes name target r a op) h = h
