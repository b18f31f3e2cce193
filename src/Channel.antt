-- ===== src/Channel.antt =====
-- src/channel/Channel.cpp: members, operators, invitations and modes of one channel. A `Client *`
-- is the descriptor of the client, under which the server holds it.
pub mod Invariant
use irc.Base.{
  ℕ, Bool, true, false, List, [], ◌∷◌, ◌++◌, contains, erase_first, length, if◌then◌else◌,
}
use irc.Text.{Text}

pub record Channel : Type 0 where
  pub name : Text
  pub topic : Text
  pub members : List ℕ
  pub operators : List ℕ
  pub is_invite_only : Bool
  pub topic_restricted : Bool
  pub password : Text
  pub user_limit : ℕ
  pub invited_clients : List ℕ

unfoldable pub new_channel : Text → Channel
new_channel name = record {
  name = name;
  topic = [];
  members = [];
  operators = [];
  is_invite_only = false;
  topic_restricted = false;
  password = [];
  user_limit = 0;
  invited_clients = [];
}

abbrev pub is_member : ℕ → Channel → Bool
is_member client ch = contains client ch.members

abbrev pub is_operator : ℕ → Channel → Bool
is_operator client ch = contains client ch.operators

abbrev pub is_invited : ℕ → Channel → Bool
is_invited client ch = contains client ch.invited_clients

unfoldable pub add_member : ℕ → Channel → Channel
add_member client ch =
    if is_member client ch then ch else record ch { members = ch.members ++ client ∷ [] }

unfoldable pub add_operator : ℕ → Channel → Channel
add_operator client ch =
    if is_operator client ch then ch else record ch { operators = ch.operators ++ client ∷ [] }

unfoldable pub remove_operator : ℕ → Channel → Channel
remove_operator client ch =
    if is_operator client ch then record ch { operators = erase_first client ch.operators } else ch

-- A client that leaves is no operator any more.
unfoldable pub remove_member : ℕ → Channel → Channel
unfolding remove_operator
remove_member client ch =
    let left : Channel =
      if is_member client ch then record ch { members = erase_first client ch.members } else ch in
    if is_operator client left then remove_operator client left else left

unfoldable pub add_invited : ℕ → Channel → Channel
add_invited client ch =
    if is_invited client ch
    then ch
    else record ch { invited_clients = ch.invited_clients ++ client ∷ [] }

unfoldable pub remove_invited : ℕ → Channel → Channel
remove_invited client ch =
    if is_invited client ch
    then record ch { invited_clients = erase_first client ch.invited_clients }
    else ch

abbrev pub get_members_count : Channel → ℕ
get_members_count ch = length ch.members

abbrev pub set_topic : Text → Channel → Channel
set_topic topic ch = record ch { topic = topic }

abbrev pub set_invite_only : Bool → Channel → Channel
set_invite_only mode ch = record ch { is_invite_only = mode }

abbrev pub set_topic_restricted : Bool → Channel → Channel
set_topic_restricted mode ch = record ch { topic_restricted = mode }

abbrev pub set_password : Text → Channel → Channel
set_password password ch = record ch { password = password }

abbrev pub set_user_limit : ℕ → Channel → Channel
set_user_limit limit ch = record ch { user_limit = limit }
