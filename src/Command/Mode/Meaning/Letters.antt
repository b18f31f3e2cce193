-- ===== src/Command/Mode/Meaning/Letters.antt =====
-- What any letter of the mode string does: the changes that it asks for, and no other to the
-- settings.
use irc.Base.{
  ℕ, ◌≡◌, refl, Bool, true, false, not, ◌&&◌, List, [], ◌∷◌, some, ◌==◌, Option-cases, inl, inr,
}
use irc.Text.{Text, text_key}
use irc.Client.{Client}
use irc.Channel.{Channel, is_member, is_operator, add_operator, remove_operator}
use irc.Server.{find_client_by_nick, find_channel}
use irc.Command.Mode.{mode_on}
use irc.Command.Mode.Changes.{ModeLoop, mode_o, change_operator}
use irc.Command.Mode.Meaning.{apply_changes, read_parameter, plainly, read_letter}
use irc.Command.Mode.Meaning.Changed.{add_operator-settings, remove_operator-settings, still}
use irc.Command.Mode.Meaning.Step.{Step, after_update, after_tell, idle, if-Step, either-Step}
use irc.Command.Mode.Meaning.Settled.{mode_i-Step, mode_t-Step, mode_k-Step, mode_l-Step}

module _ (fd : ℕ) (who : Client) (target : Text) (ch : Channel) where
  change_operator-Step :
      (nick : Text) (client : ℕ) (l : ModeLoop)
      → find_channel target l.server ≡ some ch
      → Step target
          (plainly [] l.is_plus l.args)
          ch
          l.server
          (change_operator target ch nick client l)
  unfolding change_operator apply_changes
  change_operator-Step nick client l e =
      if-Step fd who target ch (l.is_plus && not (is_operator client ch))
        (λ b.
          after_update fd who target ch [] (add_operator client) true b'o' _ l e
            (add_operator-settings client ch).0 (add_operator-settings client ch).1)
        (λ b.
          if-Step fd who target ch (not l.is_plus && is_operator client ch)
            (λ d.
              after_update fd who target ch [] (remove_operator client) false b'o' _ l e
                (remove_operator-settings client ch).0 (remove_operator-settings client ch).1)
            (λ d. idle fd who target ch [] l e refl))

  mode_o-Step :
      (args : List Text) (l : ModeLoop)
      → find_channel target l.server ≡ some ch
      → Step target
          (read_parameter (λ nick. []) l.is_plus args)
          ch
          l.server
          (mode_o fd who target ch args (record l { args = args }))
  unfolding mode_o read_parameter apply_changes
  mode_o-Step [] l e = idle fd who target ch [] (record l { args = [] }) e refl
  mode_o-Step (nick ∷ args) l e =
      let taken : ModeLoop = record l { args = args } in
      elim (Option-cases (find_client_by_nick nick l.server)) [
        | inl unknown ↦ rw (unknown, mode_o) (after_tell fd who target ch [] _ taken e refl)
        | inr (client, known) ↦
            rw (known, mode_o)
              (if-Step fd who target ch (is_member client ch)
                (λ b. change_operator-Step nick client taken e)
                (λ b. after_tell fd who target ch [] _ taken e refl))
      ]

  pub mode_on-Step :
      (c : ℕ) (l : ModeLoop)
      → find_channel target l.server ≡ some ch
      → Step target (read_letter c l.is_plus l.args) ch l.server (mode_on fd who target c ch l)
  unfolding mode_on read_letter apply_changes
  mode_on-Step c l e = either-Step fd who target ch (c == b'+') (resign true) (
      either-Step fd who target ch (c == b'-') (resign false) (
        either-Step fd who target ch (c == b'i') (mode_i-Step fd who target ch l e) (
          either-Step fd who target ch (c == b't') (mode_t-Step fd who target ch l e) (
            either-Step fd who target ch (c == b'k') (mode_k-Step fd who target ch l.args l e) (
              either-Step fd who target ch (c == b'l') (mode_l-Step fd who target ch l.args l e) (
                either-Step fd who target ch (c == b'o') (mode_o-Step l.args l e)
                  (idle fd who target ch [] l e refl)))))))
    where
      resign : (b : Bool) → Step target (plainly [] b l.args) ch l.server (record l { is_plus = b })
      resign b = record {
        plus_lem = refl;
        args_lem = refl;
        changed = still target [] ch l.server e refl;
      }
