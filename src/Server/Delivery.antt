-- ===== src/Server/Delivery.antt =====
-- Who gets a message: `broadcast` reaches every listed client but the sender, once.
use mathlib.Core.Option
use irc.Base.{
  ℕ, ◌≡◌, refl, Bool, false, not, ◌&&◌, ◌||◌, List, [], ◌∷◌, ◌++◌, Option, arith, contains,
  Distinct, contains-append, concat-Distinct, ◌==◌, if◌then◌else◌,
}
use irc.Text.{Text, int_key, text_key}
use irc.Map.{Map, lookup}
use irc.Map.Laws.{lookup-modify}
use irc.Client.{send_message}
use irc.Channel.{Channel, is_member}
use irc.Server.{Server, tell, broadcast, is_sender, add_recipients, channel_recipients}

pub channels-tell : (fd : ℕ) (m : Text) (s : Server) → (tell fd m s).channels ≡ s.channels
unfolding tell
channels-tell fd m s = refl

pub channels-broadcast :
    (xs : List ℕ) (m : Text) (sender : Option ℕ) (s : Server)
    → (broadcast xs m sender s).channels ≡ s.channels
unfolding broadcast
channels-broadcast [] m sender s = refl
channels-broadcast (x ∷ xs) m sender s = ground (
  arith,
  channels-broadcast xs m sender (if is_sender x sender then s else tell x m s),
  channels-tell x m s,
)

pub lookup-tell :
    (x fd : ℕ) (m : Text) (s : Server)
    → lookup x (tell fd m s).clients
      ≡ (if fd == x then Option.map (send_message m) (lookup x s.clients) else lookup x s.clients)
unfolding tell
lookup-tell x fd m s = lookup-modify x fd (send_message m) s.clients

-- After a broadcast over distinct members, each of them but the sender has been sent the message
-- once, and every other client is as it was.
pub lookup-broadcast :
    (xs : List ℕ) (m : Text) (sender : Option ℕ) (s : Server) (x : ℕ)
    → Distinct xs
    → lookup x (broadcast xs m sender s).clients ≡ (
        if contains x xs && not (is_sender x sender)
        then Option.map (send_message m) (lookup x s.clients)
        else lookup x s.clients)
unfolding broadcast
lookup-broadcast [] m sender s x d = refl
lookup-broadcast (y ∷ xs) m sender s x d = ground (
  arith,
  lookup-broadcast xs m sender (if is_sender y sender then s else tell y m s) x d.1,
  lookup-tell x y m s,
)

add_recipients-Distinct : (xs rs : List ℕ) → Distinct rs → Distinct (add_recipients xs rs)
unfolding add_recipients
add_recipients-Distinct [] rs d = d
add_recipients-Distinct (x ∷ xs) rs d = ground (
  arith,
  add_recipients-Distinct xs (if contains x rs then rs else rs ++ x ∷ []),
  concat-Distinct rs x d,
)

contains-add_recipients :
    (y : ℕ) (xs rs : List ℕ) → contains y (add_recipients xs rs) ≡ (contains y rs || contains y xs)
unfolding add_recipients
contains-add_recipients y [] rs = ground arith
contains-add_recipients y (x ∷ xs) rs = ground (
  arith,
  contains-add_recipients y xs (if contains x rs then rs else rs ++ x ∷ []),
  contains-append y rs (x ∷ []),
)

-- The client shares one of the channels with the other.
abbrev pub shares : ℕ → ℕ → Map Text Channel → Bool
shares client y [] = false
shares client y ((name, ch) ∷ rest) =
    (is_member client ch && is_member y ch) || shares client y rest

-- From a list without repetitions on, the recipients of a nickname change are collected without
-- repetitions.
pub channel_recipients-Distinct :
    (client : ℕ) (m : Map Text Channel) (rs : List ℕ)
    → Distinct rs
    → Distinct (channel_recipients client m rs)
unfolding channel_recipients
channel_recipients-Distinct client [] rs d = d
channel_recipients-Distinct client ((name, ch) ∷ rest) rs d = ground (
  arith,
  channel_recipients-Distinct client rest
      (if is_member client ch then add_recipients ch.members rs else rs),
  add_recipients-Distinct ch.members rs d,
)

-- The collected recipients are those of the given list, and those who share a channel with the
-- client.
pub contains-channel_recipients :
    (y client : ℕ) (m : Map Text Channel) (rs : List ℕ)
    → contains y (channel_recipients client m rs) ≡ (contains y rs || shares client y m)
unfolding channel_recipients
contains-channel_recipients y client [] rs = ground arith
contains-channel_recipients y client ((name, ch) ∷ rest) rs = ground (
  arith,
  contains-channel_recipients y client rest
      (if is_member client ch then add_recipients ch.members rs else rs),
  contains-add_recipients y ch.members rs,
)
