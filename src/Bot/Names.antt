-- ===== src/Bot/Names.antt =====
-- The bytes that accepted names do not have, and what `find` sees then.
use irc.Base.{
  ℕ, ◌≡◌, refl, true, false, not, ◌||◌, List, [], ◌∷◌, ◌++◌, none, some, arith, length, all,
  contains, ◌==◌,
}
use irc.Text.{Text, find_text, text_eq}
use irc.Text.Search.{Free}
use irc.Client.{Client}
use irc.Command.Nick.{is_valid_nickname, valid_first_characters, valid_remaining_characters}
use irc.Command.User.{is_valid_username, is_username_byte}
use irc.Command.Join.{is_valid_channel_name}
use irc.Bot.{bot_nickname}

-- A pattern that begins with a byte is not found before the first such byte.
pub find_text-append_some :
    (b : ℕ) (p s t : Text)
    → Free b s
    → find_text (b ∷ p) t ≡ some 0
    → find_text (b ∷ p) (s ++ t) ≡ some (length s)
unfolding find_text
find_text-append_some b p [] t h e = e
find_text-append_some b p (c ∷ s) t h e = ground (arith, find_text-append_some b p s t)

pub find_text-append_none :
    (b : ℕ) (p s t : Text)
    → Free b s
    → find_text (b ∷ p) t ≡ none
    → find_text (b ∷ p) (s ++ t) ≡ none
unfolding find_text
find_text-append_none b p [] t h e = e
find_text-append_none b p (c ∷ s) t h e = ground (arith, find_text-append_none b p s t)

pub find_text-Free : (b : ℕ) (p s : Text) → Free b s → find_text (b ∷ p) s ≡ none
unfolding find_text
find_text-Free b p [] h = refl
find_text-Free b p (c ∷ s) h = ground (arith, find_text-Free b p s)

not_among :
    (c b : ℕ) (xs : List ℕ) → contains b xs ≡ false → contains c xs ≡ true → (c == b) ≡ false
not_among c b [] n h = cc
not_among c b (x ∷ xs) n h = ground (arith, not_among c b xs)

all-Free :
    (b : ℕ) (allowed s : Text)
    → contains b allowed ≡ false
    → all (λ c. contains c allowed) s ≡ true
    → Free b s
all-Free b allowed [] n h = refl
all-Free b allowed (c ∷ s) n h = ground (arith, not_among c b allowed n, all-Free b allowed s)

pub nickname-Free :
    (b : ℕ) (nickname : Text)
    → contains b valid_remaining_characters ≡ false
    → contains b valid_first_characters ≡ false
    → is_valid_nickname nickname ≡ true
    → Free b nickname
unfolding is_valid_nickname
nickname-Free b [] n f v = refl
nickname-Free b (c ∷ cs) n f v =
    ground
      (arith, not_among c b valid_first_characters f, all-Free b valid_remaining_characters cs n)

username_bytes-Free : (s : Text) → all is_username_byte s ≡ true → Free b' ' s
username_bytes-Free [] h = refl
username_bytes-Free (c ∷ s) h = ground (arith, username_bytes-Free s)

pub username-Free : (username : Text) → is_valid_username username ≡ true → Free b' ' username
unfolding is_valid_username
username-Free username v = username_bytes-Free username (ground arith)

pub channel-Free : (name : Text) → is_valid_channel_name name ≡ true → Free b' ' name
unfolding is_valid_channel_name
channel-Free name v = go name (ground arith)
  where
    go : (s : Text) → all (λ c. not (c == b' ' || c == b',' || c == 7)) s ≡ true → Free b' ' s
    go [] h = refl
    go (c ∷ s) h = ground (arith, go s)

-- A user with accepted names, in a channel with an accepted name.
pub record Newcomer (who : Client) (name : Text) : Type 0 where
  pub nickname_valid : is_valid_nickname who.nickname ≡ true
  pub username_valid : is_valid_username who.username ≡ true
  pub name_valid : is_valid_channel_name name ≡ true
  pub no_bot : text_eq who.nickname bot_nickname ≡ false

pub no_space :
    contains b' ' valid_first_characters || contains b' ' valid_remaining_characters ≡ false
unfolding valid_remaining_characters
no_space = refl

pub no_bang :
    contains b'!' valid_first_characters || contains b'!' valid_remaining_characters ≡ false
unfolding valid_remaining_characters
no_bang = refl
