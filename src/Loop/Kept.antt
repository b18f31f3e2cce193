-- ===== src/Loop/Kept.antt =====
-- Writes to a client that keep its place in the server: who it is, and its bounds.
use irc.Base.{
  ℕ, zero, suc, ◌+◌, ◌≡◌, false, some, arith, length-drop, Option-cases, inl, inr, List, [], ◌∷◌,
  Option, Bool-cases,
}
use irc.Text.{Text, lf, find_byte, int_key, text_key}
use irc.Client.{
  Client, mark_dead, mark_closing, extract_line, append_to_recv_buffer, consume_send_buffer,
  send_message,
}
use irc.Client.Outbound.{SendBounded, send_message-SendBounded}
use irc.Client.Inbound.{RecvBounded, append_to_recv_buffer-RecvBounded}
use irc.Server.{Server, update_client, tell, broadcast, is_sender}
use irc.Loop.{Sent, not_ready, send_error, took, after_send, finish_closing}
use irc.Policy.Invariant.Channels.{update_client-ChannelsOk}
use irc.Policy.Invariant.Clients.{ClientOk, update_client-ClientsOk}
use irc.Policy.Invariant.Nicks.{modify-NicksOk}
use irc.Policy.Invariant.All.{Inv}

-- What the write leaves alone.
pub record Kept (c d : Client) : Type 0 where
  pub fd_same : d.fd ≡ c.fd
  pub nickname_same : d.nickname ≡ c.nickname
  pub username_same : d.username ≡ c.username
  pub nick_set_same : d.nick_set ≡ c.nick_set
  pub user_set_same : d.user_set ≡ c.user_set
  pub no_revival : d.dead ≡ false → c.dead ≡ false

pub record KeptBounded (c d : Client) : Type 0 where
  pub kept : Kept c d
  pub sends : SendBounded c → SendBounded d
  pub receives : RecvBounded c → RecvBounded d

pub KeptBounded-ClientOk : (fd : ℕ) (c d : Client) → KeptBounded c d → ClientOk fd c → ClientOk fd d
KeptBounded-ClientOk fd c d k o =
    let s = k.kept in
    record {
      own_fd = ground (arith, o.own_fd, s.fd_same);
      send_bounded = k.sends o.send_bounded;
      recv_bounded = k.receives o.recv_bounded;
      nick_valid = λ h. ground (arith, o.nick_valid, s.nick_set_same, s.nickname_same);
      nick_unset = λ h. ground (arith, o.nick_unset, s.nick_set_same, s.nickname_same);
      user_valid = λ h. ground (arith, o.user_valid, s.user_set_same, s.username_same);
    }

pub update_client-Inv :
    (fd : ℕ) (f : Client → Client) (s : Server)
    → ((c : Client) → KeptBounded c (f c))
    → Inv s
    → Inv (update_client fd f s)
unfolding update_client
update_client-Inv fd f s keep i = record {
  named = i.named;
  channels_ok = update_client-ChannelsOk fd f s i.channels_ok;
  clients_ok =
      update_client-ClientsOk fd f s (λ c o. KeptBounded-ClientOk fd c (f c) (keep c) o)
        i.clients_ok;
  nicks_ok =
      modify-NicksOk fd f s.clients (λ c. ((keep c).kept.nickname_same, (keep c).kept.no_revival))
        i.nicks_ok;
}

pub mark_dead_kept : (why : Text) (c : Client) → KeptBounded c (mark_dead why c)
unfolding mark_dead
mark_dead_kept why c = record {
  kept = ground arith;
  sends = λ h. ground arith;
  receives = λ h. ground arith;
}

pub mark_closing_kept : (why : Text) (c : Client) → KeptBounded c (mark_closing why c)
unfolding mark_closing
mark_closing_kept why c = record {
  kept = ground arith;
  sends = λ h. ground arith;
  receives = λ h. ground arith;
}

pub finish_closing_kept : (c : Client) → KeptBounded c (finish_closing c)
unfolding finish_closing mark_dead
finish_closing_kept c = record {
  kept = ground arith;
  sends = λ h. ground arith;
  receives = λ h. ground arith;
}

pub append_kept :
    (chunk : Text) (n : ℕ) (c : Client) → KeptBounded c (append_to_recv_buffer (some chunk) n c).1
append_kept chunk n c = record {
  kept = unfold append_to_recv_buffer in ground arith;
  sends = λ h. unfold append_to_recv_buffer in ground arith;
  receives = λ h. append_to_recv_buffer-RecvBounded chunk n c h;
}

pub extract_line_kept : (c : Client) → KeptBounded c (extract_line c).1
unfolding extract_line mark_dead
extract_line_kept c = elim (Option-cases (find_byte lf c.recv_buffer)) [
  | inl e ↦ rw (e, extract_line) (record { kept = ground arith; sends = λ h. h; receives = λ h. h })
  | inr (pos, e) ↦
      rw (e, extract_line)
        (record {
          kept = ground arith;
          sends = λ h. ground arith;
          receives = λ h.
              ground
                (arith, length-drop (suc pos) c.recv_buffer, length-drop (pos + 1) c.recv_buffer);
        })
]

pub after_send_kept : (w : Sent) (c : Client) → KeptBounded c (after_send w c)
unfolding after_send consume_send_buffer mark_dead
after_send_kept not_ready c = record { kept = ground arith; sends = λ h. h; receives = λ h. h }
after_send_kept (send_error why) c = record {
  kept = ground arith;
  sends = λ h. ground arith;
  receives = λ h. ground arith;
}
after_send_kept (took zero) c = record {
  kept = ground arith;
  sends = λ h. ground arith;
  receives = λ h. ground arith;
}
after_send_kept (took (suc n)) c = record {
  kept = ground arith;
  sends = λ h. ground (arith, length-drop (suc n) c.send_buffer);
  receives = λ h. ground arith;
}

pub send_message_kept : (m : Text) (c : Client) → KeptBounded c (send_message m c)
send_message_kept m c = record {
  kept = unfold send_message mark_dead in ground arith;
  sends = send_message-SendBounded m c;
  receives = λ h. unfold send_message mark_dead in ground arith;
}

pub broadcast-Inv :
    (xs : List ℕ) (m : Text) (sender : Option ℕ) (s : Server)
    → Inv s
    → Inv (broadcast xs m sender s)
unfolding broadcast tell
broadcast-Inv [] m sender s i = i
broadcast-Inv (x ∷ xs) m sender s i = elim (Bool-cases (is_sender x sender)) [
  | inl own ↦ rw own (broadcast-Inv xs m sender s i)
  | inr other ↦ rw other (
      broadcast-Inv xs m sender (tell x m s)
        (update_client-Inv x (send_message m) s (send_message_kept m) i))
]
