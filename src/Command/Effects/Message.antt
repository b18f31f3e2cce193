-- ===== src/Command/Effects/Message.antt =====
-- src/commands/PrivmsgCommand.cpp: who gets a message.
use mathlib.Core.Option
use irc.Base.{
  ℕ, ◌≡◌, Bool, false, ◌&&◌, none, some, arith, ◌==◌, if◌then◌else◌, Option-cases, Bool-cases, inl,
  inr,
}
use irc.Text.{Text, int_key, text_key}
use irc.Map.{lookup}
use irc.Map.Laws.{lookup-Entries}
use irc.Client.{Client, send_message}
use irc.Channel.{is_member}
use irc.Server.{Server, tell, find_channel, find_client_by_nick}
use irc.Server.Delivery.{lookup-tell, lookup-broadcast}
use irc.Policy.Invariant.Channels.{ChannelOk}
use irc.Policy.Invariant.All.{Inv}
use irc.Command.Privmsg.{is_channel, full_message, message_one}

-- A message of `fd` to a channel is for its other members, if `fd` is a member; a message to a
-- nickname is for the client that has it.
abbrev pub receives : ℕ → Text → Server → ℕ → Bool
receives fd target s x =
    if is_channel target
    then elim (find_channel target s) [ none ↦ false | some ch ↦ is_member fd ch && is_member x ch ]
    else elim (find_client_by_nick target s) [ none ↦ false | some receiver ↦ receiver == x ]

lookup-tell_other :
    (x fd : ℕ) (m : Text) (s : Server)
    → (x == fd) ≡ false
    → lookup x (tell fd m s).clients ≡ lookup x s.clients
lookup-tell_other x fd m s other = ground (arith, lookup-tell x fd m s)

-- In a server with the invariant: after PRIVMSG to one target, every client but the sender that the
-- message is for has been sent it, once, and every other client but the sender is as it was.
pub lookup-message_one :
    (fd : ℕ) (who : Client) (message_text target : Text) (s : Server) (x : ℕ)
    → Inv s
    → (x == fd) ≡ false
    → lookup x (message_one fd who message_text target s).clients ≡ (
        if receives fd target s x
        then Option.map (send_message (full_message who target message_text)) (lookup x s.clients)
        else lookup x s.clients)
unfolding message_one
lookup-message_one fd who message_text target s x i other = elim (Bool-cases (is_channel target)) [
  | inl channel ↦ elim (Option-cases (find_channel target s)) [
    | inl missing ↦ rw (channel, missing, message_one) (lookup-tell_other x fd _ s other)
    | inr (ch, e) ↦
        let ok : ChannelOk s.clients ch = lookup-Entries _ target s.channels i.channels_ok e in
        elim (Bool-cases (is_member fd ch)) [
          | inl inside ↦
              let sent =
                lookup-broadcast ch.members (full_message who target message_text) (some fd) s x
                  ok.well_formed.members_distinct in
              rw (channel, e, inside, message_one) (ground (arith, sent))
          | inr outside ↦ rw (channel, e, outside, message_one) (lookup-tell_other x fd _ s other)
        ]
  ]
  | inr nick ↦ elim (Option-cases (find_client_by_nick target s)) [
    | inl missing ↦ rw (nick, missing, message_one) (lookup-tell_other x fd _ s other)
    | inr (receiver, e) ↦ rw (nick, e, message_one) (lookup-tell x receiver _ s)
  ]
]
