-- ===== src/Command/Mode/Outsider.antt =====
-- src/commands/ModeCommand.cpp: MODE of a client that may not change the channel.
use irc.Base.{
  ℕ, ◌≡◌, refl, Bool, not, false, ◌&&◌, List, [], ◌∷◌, none, some, arith, ltb, length, get_or, ◌==◌,
  Option-cases, Bool-cases, inl, inr,
}
use irc.Text.{Text, int_key, text_key}
use irc.Map.{lookup}
use irc.Client.{Client}
use irc.Channel.{Channel, is_operator}
use irc.Server.{Server, tell, find_channel}
use irc.Server.Delivery.{lookup-tell, channels-tell}
use irc.Command.Mode.{execute_mode, mode_of, show_modes}

-- A mode string is given, and the sender is an operator of the channel that the command names.
abbrev pub may_change : ℕ → List Text → Server → Bool
may_change fd params s =
    ltb 1 (length params)
    && (elim (find_channel (get_or params 0 []) s) [ none ↦ false | some ch ↦ is_operator fd ch ])

-- No channel has changed, and no client but the sender.
abbrev pub Untouched : ℕ → Server → Server → Type 0
Untouched fd s t =
    (t.channels ≡ s.channels)
    × ((x : ℕ) → (x == fd) ≡ false → lookup x t.clients ≡ lookup x s.clients)

tell-Untouched : (fd : ℕ) (m : Text) (s : Server) → Untouched fd s (tell fd m s)
tell-Untouched fd m s = (channels-tell fd m s, λ x other. ground (arith, lookup-tell x fd m s))

mode_of-Untouched :
    (fd : ℕ) (who : Client) (target : Text) (ch : Channel) (args : List Text) (s : Server)
    → (ltb 0 (length args) && is_operator fd ch) ≡ false
    → Untouched fd s (mode_of fd who target ch args s)
unfolding mode_of show_modes
mode_of-Untouched fd who target ch [] s h = tell-Untouched fd _ s
mode_of-Untouched fd who target ch (mode_string ∷ args) s h =
    let outside : is_operator fd ch ≡ false = ground arith in
    rw (outside, mode_of) (tell-Untouched fd _ s)

-- MODE of a client that gives no mode string, or is no operator of the channel that it names, or
-- names no channel of the server: no channel has changed, and no client but the sender.
pub execute_mode-Untouched :
    (fd : ℕ) (who : Client) (params : List Text) (s : Server)
    → may_change fd params s ≡ false
    → Untouched fd s (execute_mode fd who params s)
unfolding execute_mode
execute_mode-Untouched fd who [] s h = tell-Untouched fd _ s
execute_mode-Untouched fd who (target ∷ rest) s h =
    elim (Bool-cases (not (get_or target 0 0 == b'#') && not (get_or target 0 0 == b'&'))) [
      | inl ignored ↦ rw (ignored, execute_mode) (refl, λ x other. refl)
      | inr prefixed ↦ elim (Option-cases (find_channel target s)) [
        | inl missing ↦ rw (prefixed, missing, execute_mode) (tell-Untouched fd _ s)
        | inr (ch, e) ↦
            rw (prefixed, e, execute_mode)
              (mode_of-Untouched fd who target ch rest s (ground (arith, (rw e at h))))
      ]
    ]
