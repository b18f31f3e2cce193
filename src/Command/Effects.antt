-- ===== src/Command/Effects.antt =====
-- What the handlers of src/commands do to a channel, on every branch: lemmas on the ways to write.
pub mod Results
pub mod Join
pub mod Moderate
pub mod Message
pub mod Holder
pub mod Nick
pub mod Leave
use mathlib.Core.Option
use irc.Base.{
  ℕ, ◌≡◌, refl, ap, ◌∙◌, List, Option, none, some, if◌then◌else◌, Option-cases, inl, inr,
}
use irc.Text.{Text, text_eq, text_key}
use irc.Map.{lookup}
use irc.Map.Laws.{lookup-modify, lookup-insert}
use irc.Channel.{Channel, new_channel}
use irc.Server.{Server, tell, broadcast, find_channel, create_channel, update_channel}
use irc.Server.Delivery.{channels-tell, channels-broadcast}

pub find_channel-tell :
    (other : Text) (fd : ℕ) (m : Text) (s : Server)
    → find_channel other (tell fd m s) ≡ find_channel other s
find_channel-tell other fd m s = ap (lookup other) (channels-tell fd m s)

pub find_channel-broadcast :
    (other : Text) (xs : List ℕ) (m : Text) (sender : Option ℕ) (s : Server)
    → find_channel other (broadcast xs m sender s) ≡ find_channel other s
find_channel-broadcast other xs m sender s = ap (lookup other) (channels-broadcast xs m sender s)

-- A message to the members, and then one to a client.
pub find_channel-tell-broadcast :
    (other : Text) (fd : ℕ) (m : Text) (xs : List ℕ) (n : Text) (sender : Option ℕ) (s : Server)
    → find_channel other (tell fd m (broadcast xs n sender s)) ≡ find_channel other s
find_channel-tell-broadcast other fd m xs n sender s =
    find_channel-tell other fd m (broadcast xs n sender s)
    ∙ find_channel-broadcast other xs n sender s

pub find_channel-update_channel :
    (other name : Text) (f : Channel → Channel) (s : Server)
    → find_channel other (update_channel name f s)
      ≡ (if text_eq name other then Option.map f (find_channel other s) else find_channel other s)
unfolding update_channel
find_channel-update_channel other name f s = lookup-modify other name f s.channels

pub find_channel-create_channel :
    (other name : Text) (s : Server)
    → find_channel name s ≡ none
    → find_channel other (create_channel name s)
      ≡ (if text_eq name other then some (new_channel name) else find_channel other s)
unfolding create_channel
find_channel-create_channel other name s e =
    rw (e, create_channel) (lookup-insert other name (new_channel name) s.channels)
