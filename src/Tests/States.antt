-- ===== src/Tests/States.antt =====
-- The states of the examples: a server, its clients and a channel.
use irc.Base.{
  ℕ, ◌≡◌, refl, ap, sym, ◌∙◌, ◌≢◌, ◌≤◌, ◌⊎◌, inl, inr, length, true, false, [], ◌∷◌, some, arith,
}
use irc.Text.{Text, codes, int_key, text_key}
use irc.Text.Casemap.{to_irc_lower_case}
use irc.Map.{lookup}
use irc.Client.{Client}
use irc.Channel.{Channel}
use irc.Channel.Invariant.{WellFormed}
use irc.Server.{Server}
use irc.Map.Laws.{has}
use irc.Command.Nick.{is_valid_nickname}
use irc.Command.User.{is_valid_username}
use irc.Policy.Invariant.Channels.{ChannelOk}
use irc.Policy.Invariant.Clients.{ClientOk}
use irc.Policy.Invariant.Nicks.{NicksUnique}
use irc.Policy.Invariant.All.{Inv}

-- A registered client.
abbrev pub user_at : ℕ → Text → Text → Client
user_at fd nickname received = record {
  fd = fd;
  ip = codes "10.0.0.1";
  recv_buffer = received;
  send_buffer = [];
  nickname = nickname;
  username = codes "user";
  pass_ok = true;
  nick_set = true;
  user_set = true;
  failed_pass_attempts = 0;
  dead = false;
  closing = false;
  dead_reason = [];
}

abbrev pub two_lines : Text
two_lines = codes "PING :a\r\nPRIVMSG bob :hi\r\n"

abbrev pub alice : Client
alice = user_at 4 (codes "alice") two_lines

abbrev pub bob : Client
bob = user_at 5 (codes "bob") []

-- Alice is the operator, Bob a member.
abbrev pub lobby : Channel
lobby = record {
  name = codes "#lobby";
  topic = [];
  password = [];
  is_invite_only = false;
  topic_restricted = true;
  user_limit = 0;
  members = 4 ∷ 5 ∷ [];
  operators = 4 ∷ [];
  invited_clients = [];
}

abbrev pub empty_server : Server
empty_server = record {
  port = 6667;
  password = codes "secret";
  listen_fd = 3;
  poll_fds = record { fd = 3; poll_in = true; poll_out = false } ∷ [];
  clients = [];
  channels = [];
}

abbrev pub party : Server
party = record empty_server {
  clients = (4, alice) ∷ (5, bob) ∷ [];
  channels = (codes "#lobby", lobby) ∷ [];
}

user_at-ClientOk :
    (fd : ℕ) (nickname received : Text)
    → length received ≤ 8192
    → is_valid_nickname nickname ≡ true
    → ClientOk fd (user_at fd nickname received)
unfolding is_valid_username
user_at-ClientOk fd nickname received l v = record {
  own_fd = refl;
  send_bounded = ground arith;
  recv_bounded = l;
  nick_valid = λ h. v;
  nick_unset = λ h. ground arith;
  user_valid = λ h. refl;
}

pub lobby-WellFormed : WellFormed lobby
lobby-WellFormed = record {
  members_distinct = ground arith;
  operators_distinct = ground arith;
  invited_distinct = tt;
  operators_members = λ x h. ground arith;
}

lobby-ChannelOk : ChannelOk party.clients lobby
unfolding has lookup
lobby-ChannelOk = record {
  well_formed = lobby-WellFormed;
  members_known = λ x e. ground arith;
  invited_known = λ x e. ground arith;
}

party_client :
    (x : ℕ) {c : Client}
    → lookup x party.clients ≡ some c
    → ((x ≡ 4) × (c ≡ alice)) ⊎ ((x ≡ 5) × (c ≡ bob))
unfolding lookup
party_client x {c} e = ground arith

other_nicks : to_irc_lower_case alice.nickname ≢ to_irc_lower_case bob.nickname
unfolding to_irc_lower_case
other_nicks e = ground arith

nick_of : {c d : Client} → c ≡ d → to_irc_lower_case c.nickname ≡ to_irc_lower_case d.nickname
nick_of e = ap (λ (b : Client). to_irc_lower_case b.nickname) e

party-NicksUnique : NicksUnique party.clients
party-NicksUnique x y c d lx ly ax ay ne e = elim (party_client x {c = c} lx) [
  | inl (a, p) ↦ elim (party_client y {c = d} ly) [
    | inl (b, _) ↦ a ∙ sym b
    | inr (_, q) ↦ absurd (other_nicks (sym (nick_of p) ∙ e ∙ nick_of q))
  ]
  | inr (a, p) ↦ elim (party_client y {c = d} ly) [
    | inl (_, q) ↦ absurd (other_nicks (sym (nick_of q) ∙ sym e ∙ nick_of p))
    | inr (b, _) ↦ a ∙ sym b
  ]
]

pub empty_server-Inv : Inv empty_server
unfolding lookup
empty_server-Inv = record {
  named = tt;
  channels_ok = tt;
  clients_ok = tt;
  nicks_ok = record { sorted = tt; unique = λ x y c d lx ly ax ay ne e. ground arith };
}

pub party-Inv : Inv party
unfolding is_valid_nickname
party-Inv = record {
  named = (refl, tt);
  channels_ok = (lobby-ChannelOk, tt);
  clients_ok = (
    user_at-ClientOk 4 (codes "alice") two_lines (ground arith) refl,
    (user_at-ClientOk 5 (codes "bob") [] (ground arith) refl, tt),
  );
  nicks_ok = record { sorted = ground arith; unique = party-NicksUnique };
}
