-- ===== src/Bot/Socket.antt =====
-- The socket of the bot, which blocks: what `send` and `recv` answer, the bytes that are on the
-- wire, and the actions that end with a value, with an exception, or in a call that waits.
use irc.Base.{ℕ, Bool, List, if◌then◌else◌}
use irc.Text.{Text}

-- `send` takes bytes, is interrupted (EINTR), or fails with a reason.
pub data Answer : Type 0 where
  took : ℕ → Answer
  interrupted : Answer
  failed : Text → Answer

-- The answers to come, and the bytes that `send` has taken.
pub record Wire : Type 0 where
  pub answers : List Answer
  pub sent : Text

-- `blocked` is a call with no answer yet.
pub data Result (A : Type 0) : Type 0 where
  done : A → Result A
  raised : Text → Result A
  blocked : Result A

abbrev pub Io : Type 0 → Type 0
Io A = Wire → Result A × Wire

abbrev pub pure : {A : Type 0} → A → Io A
pure a w = (done a, w)

abbrev pub raise : {A : Type 0} → Text → Io A
raise why w = (raised why, w)

abbrev pub block : {A : Type 0} → Io A
block w = (blocked, w)

infixl 5 ◌>>=◌ ◌>>◌
abbrev pub ◌>>=◌ : {A B : Type 0} → Io A → (A → Io B) → Io B
◌>>=◌ m f w =
    let (r, w') = m w in
    elim r [ done a ↦ f a w' | raised why ↦ (raised why, w') | blocked ↦ (blocked, w') ]

abbrev pub ◌>>◌ : {B : Type 0} → Io (Unit {0}) → Io B → Io B
m >> k = m >>= λ _. k

abbrev pub raise_if : Bool → Text → Io (Unit {0})
raise_if c why w = (if c then raised why else done tt, w)
