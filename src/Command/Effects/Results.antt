-- ===== src/Command/Effects/Results.antt =====
-- src/channel/Channel.cpp and src/commands/Join.cpp: a channel after an operation, field by field.
use irc.Base.{
  ℕ, ◌≡◌, refl, true, false, not, List, [], ◌∷◌, ◌++◌, some, arith, ◌==◌, contains, erase_first,
  select, Distinct, if◌then◌else◌,
}
use irc.Text.{Text, text_key}
use irc.Map.Laws.{lookup-Entries}
use irc.Channel.{Channel, new_channel, is_member, is_invited, remove_member, add_invited}
use irc.Channel.Invariant.{WellFormed}
use irc.Server.{Server, find_channel}
use irc.Policy.Invariant.Members.{ChannelOk}
use irc.Policy.Invariant.All.{Inv}
use irc.Command.Join.{enter, open_channel}

-- All entries but `x`.
abbrev pub without : ℕ → List ℕ → List ℕ
without x xs = select (λ y. not (x == y)) xs

without_absent : (x : ℕ) (xs : List ℕ) → contains x xs ≡ false → without x xs ≡ xs
without_absent x [] h = refl
without_absent x (y ∷ ys) h = ground (arith, without_absent x ys)

erase_first-without : (x : ℕ) (xs : List ℕ) → Distinct xs → erase_first x xs ≡ without x xs
erase_first-without x [] d = refl
erase_first-without x (y ∷ ys) d = ground (arith, erase_first-without x ys d.1, without_absent x ys)

-- A channel with one client, its operator, in which only operators set the topic.
abbrev pub opened : ℕ → Text → Channel
opened fd name = record {
  name = name;
  topic = [];
  members = fd ∷ [];
  operators = fd ∷ [];
  is_invite_only = false;
  topic_restricted = true;
  password = [];
  user_limit = 0;
  invited_clients = [];
}

-- The client behind the members, its invitation used up.
abbrev pub entered : ℕ → Channel → Channel
entered fd ch = record ch {
  members = ch.members ++ fd ∷ [];
  invited_clients = without fd ch.invited_clients;
}

-- The client is neither a member nor an operator.
abbrev pub departed : ℕ → Channel → Channel
departed fd ch = record ch { members = without fd ch.members; operators = without fd ch.operators }

-- The client is on the list of invitations.
abbrev pub invited : ℕ → Channel → Channel
invited fd ch = record ch {
  invited_clients =
      if contains fd ch.invited_clients then ch.invited_clients else ch.invited_clients ++ fd ∷ [];
}

-- The channel has this topic.
abbrev pub retopiced : Text → Channel → Channel
retopiced topic ch = record ch { topic = topic }

pub open_channel-opened :
    (fd : ℕ) (name : Text) → open_channel fd (new_channel name) ≡ opened fd name
unfolding open_channel new_channel irc.Channel.add_operator irc.Channel.add_member
open_channel-opened fd name = refl

pub enter-entered :
    (fd : ℕ) (ch : Channel) → WellFormed ch → is_member fd ch ≡ false → enter fd ch ≡ entered fd ch
unfolding enter irc.Channel.add_member irc.Channel.remove_invited
enter-entered fd ch w m = ground (
  arith,
  erase_first-without fd ch.invited_clients w.invited_distinct,
  without_absent fd ch.invited_clients,
)

pub remove_member-departed :
    (fd : ℕ) (ch : Channel) → WellFormed ch → remove_member fd ch ≡ departed fd ch
unfolding remove_member irc.Channel.remove_operator
remove_member-departed fd ch w = ground (
  arith,
  erase_first-without fd ch.members w.members_distinct,
  without_absent fd ch.members,
  erase_first-without fd ch.operators w.operators_distinct,
  without_absent fd ch.operators,
)

pub add_invited-invited : (fd : ℕ) (ch : Channel) → add_invited fd ch ≡ invited fd ch
unfolding add_invited
add_invited-invited fd ch = ground arith

-- A channel of a server with the invariant.
pub found-WellFormed :
    (name : Text) (s : Server) {ch : Channel}
    → Inv s
    → find_channel name s ≡ some ch
    → WellFormed ch
found-WellFormed name s {ch} i e =
    (lookup-Entries (λ _ c. ChannelOk s.clients c) name s.channels i.channels_ok e).well_formed
