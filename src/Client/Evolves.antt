-- ===== src/Client/Evolves.antt =====
-- How a client may change while a command runs: it stays the same connection, its receive buffer
-- is left alone, and it does not come back to life.
use irc.Base.{◌≡◌, true, arith}
use irc.Text.{Text}
use irc.Client.{Client, mark_dead, mark_closing, send_message}

pub record Evolves (c d : Client) : Type 0 where
  pub fd_same : d.fd ≡ c.fd
  pub ip_same : d.ip ≡ c.ip
  pub recv_same : d.recv_buffer ≡ c.recv_buffer
  pub stays_dead : c.dead ≡ true → d.dead ≡ true
  pub stays_closing : c.closing ≡ true → d.closing ≡ true

-- What `sendMessage` leaves alone besides: who the client is, and whether it is registered.
pub record Told (c d : Client) : Type 0 where
  pub nickname_same : d.nickname ≡ c.nickname
  pub username_same : d.username ≡ c.username
  pub pass_same : d.pass_ok ≡ c.pass_ok
  pub nick_set_same : d.nick_set ≡ c.nick_set
  pub user_set_same : d.user_set ≡ c.user_set
  pub attempts_same : d.failed_pass_attempts ≡ c.failed_pass_attempts
  pub evolves : Evolves c d
  pub open evolves use *

pub Evolves-refl : (c : Client) → Evolves c c
Evolves-refl c = ground arith

pub Evolves-trans : (b c d : Client) → Evolves b c → Evolves c d → Evolves b d
Evolves-trans b c d h k = ground arith

pub Told-refl : (c : Client) → Told c c
Told-refl c = ground arith

pub Told-trans : (b c d : Client) → Told b c → Told c d → Told b d
Told-trans b c d h k = ground arith

pub send_message-Told : (m : Text) (c : Client) → Told c (send_message m c)
unfolding send_message mark_dead
send_message-Told m c = ground arith

pub mark_closing-Told : (m : Text) (c : Client) → Told c (mark_closing m c)
unfolding mark_closing
mark_closing-Told m c = ground arith
