-- ===== src/Policy.antt =====
-- The policy of the server: the single acts of which every command is made, each with the right
-- that it takes. `Policy/Refine` proves that the handlers keep to it.
pub mod Names
pub mod Refine
pub mod Invariant
use irc.Base.{
  ℕ, ◌≡◌, refl, ◌≢◌, ◌⊎◌, Bool, true, false, ◌∷◌, [], List, Option, none, some, ◌<◌, ltb, get_or,
  if◌then◌else◌, is_empty,
}
use irc.Text.{Text, int_key, text_key}
use irc.Map.{Map, lookup}
use irc.Client.{Client, is_registered, record_failed_pass_attempt, mark_closing}
use irc.Channel.{
  Channel, is_member, is_operator, is_invited, remove_member, add_operator, remove_operator,
  add_invited, set_topic, set_invite_only, set_topic_restricted, set_password, set_user_limit,
  get_members_count,
}
use irc.Server.{
  Server, tell, broadcast, is_sender, find_channel, create_channel, remove_channel, update_client,
  update_channel, find_client_by_nick,
}
use irc.Text.Tokens.{split_string}
use irc.Client.{set_pass_ok}
use irc.Command.User.{is_valid_username, set_user}
use irc.Command.Nick.{is_valid_nickname, set_nick, is_taken_by_other}
use irc.Command.Join.{is_valid_channel_name, open_channel, enter}

-- The settings that an operator may change.
pub data Setting : Type 0 where
  invite_only topic_restricted : Bool → Setting
  password : Text → Setting
  user_limit : ℕ → Setting

abbrev pub apply : Setting → Channel → Channel
apply (invite_only b) = set_invite_only b
apply (topic_restricted b) = set_topic_restricted b
apply (password key) = set_password key
apply (user_limit n) = set_user_limit n

-- The first parameter as a list of channels, the second as the list of their keys: what stands at
-- one place, empty where nothing does.
abbrev pub listed_name : ℕ → List Text → Text
listed_name place params = get_or (split_string (get_or params 0 []) b',') place []

abbrev pub listed_key : ℕ → List Text → Text
listed_key place params = get_or (split_string (get_or params 1 []) b',') place []

-- The command names this channel in its list.
abbrev pub Listed : Text → List Text → Type 0
Listed name params = (place : ℕ) × (name ≡ listed_name place params)

-- What a client that is no member needs to enter a channel that exists: the command names the
-- channel, with the key at the same place.
pub record MayJoin (fd : ℕ) (params : List Text) (name : Text) (ch : Channel) : Type 0 where
  pub place : ℕ
  pub asked : name ≡ listed_name place params
  pub no_member : is_member fd ch ≡ false
  pub has_key : (is_empty ch.password ≡ true) ⊎ (ch.password ≡ listed_key place params)
  pub has_invitation : ch.is_invite_only ≡ true → is_invited fd ch ≡ true
  pub has_room : (ch.user_limit ≡ 0) ⊎ (get_members_count ch < ch.user_limit)

-- The client was an operator of the channel when its command began.
abbrev pub OperatorOf : ℕ → Text → Server → Type 0
OperatorOf fd name s = (ch : Channel) × (find_channel name s ≡ some ch) × (is_operator fd ch ≡ true)

abbrev pub HasPass : Client → Type 0
HasPass who = who.pass_ok ≡ true

abbrev pub Registered : Client → Type 0
Registered who = is_registered who ≡ true

-- One act of the client `who` at `fd`, in a command with the given parameters that began in
-- the state `start`. To send a message takes no right here: who is told what is a matter of the
-- single commands.
pub data Act (fd : ℕ) (who : Client) (params : List Text) (start : Server)
    : Server → Server → Type 0 where
  tells : {s : Server} (x : ℕ) (m : Text) → Act fd who params start s (tell x m s)
  authenticates :
      {s : Server}
      → get_or params 0 [] ≡ s.password
      → Act fd who params start s (update_client fd (set_pass_ok true) s)
  fails_pass :
      {s : Server} → Act fd who params start s (update_client fd record_failed_pass_attempt s)
  closes :
      {s : Server} (reason : Text)
      → Act fd who params start s (update_client fd (mark_closing reason) s)
  identifies :
      {s : Server} (username : Text)
      → HasPass who
      → username ≡ get_or params 0 []
      → is_valid_username username ≡ true
      → Act fd who params start s (update_client fd (set_user username) s)
  renames :
      {s : Server} (nickname : Text)
      → HasPass who
      → nickname ≡ get_or params 0 []
      → is_valid_nickname nickname ≡ true
      → is_taken_by_other fd nickname s ≡ false
      → Act fd who params start s (update_client fd (set_nick nickname) s)
  creates :
      {s : Server} (name : Text)
      → Registered who
      → Listed name params
      → is_valid_channel_name name ≡ true
      → find_channel name s ≡ none
      → Act fd who params start s (update_channel name (open_channel fd) (create_channel name s))
  joins :
      {s : Server} (name : Text) (ch : Channel)
      → Registered who
      → find_channel name s ≡ some ch
      → MayJoin fd params name ch
      → Act fd who params start s (update_channel name (enter fd) s)
  leaves :
      {s : Server} (name : Text)
      → Registered who
      → get_or params 0 [] ≡ b'0' ∷ []
      → Act fd who params start s (update_channel name (remove_member fd) s)
  removes :
      {s : Server} (name : Text) (ch : Channel)
      → Registered who
      → find_channel name s ≡ some ch
      → ch.members ≡ []
      → Act fd who params start s (remove_channel name s)
  kicks :
      {s : Server} (name : Text) (ch : Channel) (target : ℕ)
      → Registered who
      → Listed name params
      → find_channel name s ≡ some ch
      → is_operator fd ch ≡ true
      → is_member target ch ≡ true
      → Act fd who params start s (update_channel name (remove_member target) s)
  invites :
      {s : Server} (name : Text) (ch : Channel) (target : ℕ)
      → Registered who
      → (name ≡ get_or params 1 []) × (find_client_by_nick (get_or params 0 []) s ≡ some target)
      → find_channel name s ≡ some ch
      → is_member fd ch ≡ true
      → is_member target ch ≡ false
      → (ch.is_invite_only ≡ true → is_operator fd ch ≡ true)
      → Act fd who params start s (update_channel name (add_invited target) s)
  retopics :
      {s : Server} (name topic : Text) (ch : Channel)
      → Registered who
      → (name ≡ get_or params 0 []) × (topic ≡ get_or params 1 [])
      → find_channel name s ≡ some ch
      → is_member fd ch ≡ true
      → (ch.topic_restricted ≡ true → is_operator fd ch ≡ true)
      → Act fd who params start s (update_channel name (set_topic topic) s)
  sets :
      {s : Server} (name : Text) (change : Setting)
      → Registered who
      → name ≡ get_or params 0 []
      → OperatorOf fd name start
      → Act fd who params start s (update_channel name (apply change) s)
  promotes :
      {s : Server} (name : Text) (ch : Channel) (target : ℕ)
      → Registered who
      → name ≡ get_or params 0 []
      → OperatorOf fd name start
      → find_channel name s ≡ some ch
      → is_member target ch ≡ true
      → Act fd who params start s (update_channel name (add_operator target) s)
  demotes :
      {s : Server} (name : Text) (target : ℕ)
      → Registered who
      → name ≡ get_or params 0 []
      → OperatorOf fd name start
      → Act fd who params start s (update_channel name (remove_operator target) s)

-- Any number of acts.
pub data Acts (fd : ℕ) (who : Client) (params : List Text) (start s : Server)
    : Server → Type 0 where
  done : Acts fd who params start s s
  also :
      {t u : Server}
      → Acts fd who params start s t
      → Act fd who params start t u
      → Acts fd who params start s u

module _ {fd : ℕ} {who : Client} {params : List Text} {start : Server} where
  pub Acts-trans :
      {s t u : Server}
      → Acts fd who params start s t
      → Acts fd who params start t u
      → Acts fd who params start s u
  Acts-trans p done = p
  Acts-trans p (also q a) = also (Acts-trans p q) a

  pub Acts-tell :
      {s t : Server} (x : ℕ) (m : Text)
      → Acts fd who params start s t
      → Acts fd who params start s (tell x m t)
  Acts-tell x m p = also p (tells x m)

  pub Acts-if :
      {s t u : Server} (b : Bool)
      → (b ≡ true → Acts fd who params start s t)
      → (b ≡ false → Acts fd who params start s u)
      → Acts fd who params start s (if b then t else u)
  Acts-if true p q = p refl
  Acts-if false p q = q refl

  -- Where the acts need nothing of the test.
  pub Acts-either :
      {s t u : Server} (b : Bool)
      → Acts fd who params start s t
      → Acts fd who params start s u
      → Acts fd who params start s (if b then t else u)
  Acts-either b p q = Acts-if b (λ _. p) (λ _. q)

  -- A lookup that may find nothing.
  pub Acts-option :
      {A : Type 0} {s t : Server} {f : A → Server} (o : Option A)
      → (o ≡ none → Acts fd who params start s t)
      → ((a : A) → o ≡ some a → Acts fd who params start s (f a))
      → Acts fd who params start s (elim o [ none ↦ t | some a ↦ f a ])
  Acts-option none p q = p refl
  Acts-option (some a) p q = q a refl

  pub Acts-broadcast :
      {s t : Server} (xs : List ℕ) (m : Text) (sender : Option ℕ)
      → Acts fd who params start s t
      → Acts fd who params start s (broadcast xs m sender t)
  unfolding broadcast
  Acts-broadcast [] m sender p = p
  Acts-broadcast {s} {t} (x ∷ xs) m sender p =
      Acts-broadcast {s = s} {t = if is_sender x sender then t else tell x m t} xs m sender
        (Acts-if (is_sender x sender) (λ _. p) (λ _. Acts-tell x m p))
