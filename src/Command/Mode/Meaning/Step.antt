-- ===== src/Command/Mode/Meaning/Step.antt =====
-- One letter of the mode string: ways to leave the channel with the changes that it asks for.
use irc.Base.{ℕ, ◌≡◌, refl, Bool, true, false, List, some, if◌then◌else◌}
use irc.Text.{Text, text_key}
use irc.Client.{Client}
use irc.Channel.{Channel}
use irc.Server.{Server, tell, find_channel, update_channel}
use irc.Command.Mode.Changes.{ModeLoop, note, on_server}
use irc.Command.Mode.Meaning.{settings, Change, apply_changes, Reading, plainly}
use irc.Command.Mode.Meaning.Changed.{SameElse, Changed, still, told, updated}

-- One letter.
pub record Step (target : Text) (r : Reading) (ch : Channel) (s : Server) (l : ModeLoop)
    : Type 0 where
  pub plus_lem : l.is_plus ≡ r.plus
  pub args_lem : l.args ≡ r.args
  pub changed : Changed target r.changes ch s (l.server)

module _ (fd : ℕ) (who : Client) (target : Text) (ch : Channel) where
  -- The loop's variables with the letter noted after the channel was written.
  pub after_update :
      (changes : List Change) (f : Channel → Channel) (b : Bool) (letter : ℕ) (param : Text)
      (l : ModeLoop)
      → find_channel target l.server ≡ some ch
      → settings (f ch) ≡ apply_changes changes (settings ch)
      → SameElse ch (f ch)
      → Step target
          (plainly changes l.is_plus l.args)
          ch
          l.server
          (note b letter param (on_server (update_channel target f) l))
  unfolding note
  after_update changes f b letter param l e h k = record {
    plus_lem = refl;
    args_lem = refl;
    changed = updated target changes ch f l.server e h k;
  }

  pub after_tell :
      (changes : List Change) (m : Text) (l : ModeLoop)
      → find_channel target l.server ≡ some ch
      → settings ch ≡ apply_changes changes (settings ch)
      → Step target (plainly changes l.is_plus l.args) ch l.server (on_server (tell fd m) l)
  after_tell changes m l e h = record {
    plus_lem = refl;
    args_lem = refl;
    changed = told target changes ch fd m l.server e h;
  }

  pub idle :
      (changes : List Change) (l : ModeLoop)
      → find_channel target l.server ≡ some ch
      → settings ch ≡ apply_changes changes (settings ch)
      → Step target (plainly changes l.is_plus l.args) ch l.server l
  idle changes l e h = record {
    plus_lem = refl;
    args_lem = refl;
    changed = still target changes ch l.server e h;
  }

  pub if-Step :
      {r : Reading} {s : Server} {l k : ModeLoop} (b : Bool)
      → (b ≡ true → Step target r ch s l)
      → (b ≡ false → Step target r ch s k)
      → Step target r ch s (if b then l else k)
  if-Step true p q = p refl
  if-Step false p q = q refl

  pub either-Step :
      {q r : Reading} {s : Server} {l k : ModeLoop} (b : Bool)
      → Step target q ch s l
      → Step target r ch s k
      → Step target (if b then q else r) ch s (if b then l else k)
  either-Step true p q = p
  either-Step false p q = q
