-- ===== src/Command/Mode/Meaning/Settled.antt =====
-- What the letters of the settings do: the changes that they ask for, and no other.
use mathlib.Core.Path.{subst}
use irc.Base.{
  ℕ, ◌≡◌, refl, sym, Bool, true, false, not, ◌&&◌, ◌||◌, List, [], ◌∷◌, some, arith, is_empty, all,
  ltb, ◌==◌, if◌then◌else◌, Bool-cases, inl, inr,
}
use irc.Text.{Text, text_eq, text_key}
use irc.Text.Decimal.{is_digit, atoi, is_positive_int}
use irc.Client.{Client}
use irc.Channel.{Channel, set_invite_only, set_topic_restricted, set_password, set_user_limit}
use irc.Server.{find_channel}
use irc.Command.Mode.Changes.{
  ModeLoop, mode_i, mode_t, mode_k, mode_l, set_key, clear_key, set_limit, clear_limit, is_bad_key,
}
use irc.Command.Mode.Meaning.{
  invited_only, restricts_topic, gives_key, takes_key, limits_to, apply_change, apply_changes,
  read_key, read_limit, read_parameter, plainly,
}
use irc.Command.Mode.Meaning.Changed.{SameElse-set}
use irc.Command.Mode.Meaning.Step.{Step, after_update, after_tell, idle, if-Step, either-Step}

-- A limit that is a positive number, and one that is not.
abbrev is_limit : Text → Bool
is_limit digits = all is_digit digits && not (is_empty digits) && is_positive_int (atoi digits)

positive_limit :
    (digits : Text) → is_limit digits ≡ true → read_limit digits ≡ limits_to (atoi digits) ∷ []
unfolding read_limit
positive_limit digits h = rw (h, read_limit) refl

void_limit : (digits : Text) → is_limit digits ≡ false → read_limit digits ≡ []
unfolding read_limit
void_limit digits h = rw (h, read_limit) refl

module _ (fd : ℕ) (who : Client) (target : Text) (ch : Channel) where
  pub mode_i-Step :
      (l : ModeLoop)
      → find_channel target l.server ≡ some ch
      → Step target
          (plainly (invited_only l.is_plus ∷ []) l.is_plus l.args)
          ch
          l.server
          (mode_i target ch l)
  unfolding mode_i apply_changes apply_change
  mode_i-Step l e =
      if-Step fd who target ch
        (not (ch.is_invite_only && l.is_plus || not ch.is_invite_only && not l.is_plus))
        (λ b.
          after_update fd who target ch _ (set_invite_only l.is_plus) l.is_plus b'i' [] l e refl
            (SameElse-set ch l.is_plus ch.topic_restricted ch.password ch.user_limit))
        (λ b. idle fd who target ch _ l e (ground (arith, b)))

  pub mode_t-Step :
      (l : ModeLoop)
      → find_channel target l.server ≡ some ch
      → Step target
          (plainly (restricts_topic l.is_plus ∷ []) l.is_plus l.args)
          ch
          l.server
          (mode_t target ch l)
  unfolding mode_t apply_changes apply_change
  mode_t-Step l e =
      if-Step fd who target ch
        (not (ch.topic_restricted && l.is_plus || not ch.topic_restricted && not l.is_plus))
        (λ b.
          after_update fd who target ch _ (set_topic_restricted l.is_plus) l.is_plus b't' [] l e
            refl (SameElse-set ch ch.is_invite_only l.is_plus ch.password ch.user_limit))
        (λ b. idle fd who target ch _ l e (ground (arith, b)))

  set_key-Step :
      (key : Text) (l : ModeLoop)
      → find_channel target l.server ≡ some ch
      → Step target
          (plainly (read_key true key) l.is_plus l.args)
          ch
          l.server
          (set_key fd who target ch key l)
  unfolding set_key read_key apply_changes apply_change
  set_key-Step key l e = elim (Bool-cases (is_bad_key key)) [
    | inl bad ↦ rw (bad, set_key, read_key) (after_tell fd who target ch [] _ l e refl)
    | inr fine ↦
        rw (fine, set_key, read_key)
          (if-Step fd who target ch (is_empty ch.password)
            (λ b.
              after_update fd who target ch (gives_key key ∷ []) (set_password key) true b'k' _ l e
                (ground (arith, b))
                (SameElse-set ch ch.is_invite_only ch.topic_restricted key ch.user_limit))
            (λ b. after_tell fd who target ch (gives_key key ∷ []) _ l e (ground (arith, b))))
  ]

  clear_key-Step :
      (key : Text) (l : ModeLoop)
      → find_channel target l.server ≡ some ch
      → Step target
          (plainly (read_key false key) l.is_plus l.args)
          ch
          l.server
          (clear_key target ch key l)
  unfolding clear_key read_key apply_changes apply_change
  clear_key-Step key l e =
      if-Step fd who target ch (text_eq ch.password key)
        (λ b.
          after_update fd who target ch (takes_key key ∷ []) (set_password []) false b'k' _ l e
            (ground (arith, b))
            (SameElse-set ch ch.is_invite_only ch.topic_restricted [] ch.user_limit))
        (λ b. idle fd who target ch (takes_key key ∷ []) l e (ground (arith, b)))

  set_limit-Step :
      (digits : Text) (l : ModeLoop)
      → find_channel target l.server ≡ some ch
      → Step target
          (plainly (read_limit digits) l.is_plus l.args)
          ch
          l.server
          (set_limit fd who target ch digits l)
  unfolding set_limit apply_changes apply_change
  set_limit-Step digits l e = elim (Bool-cases (not (all is_digit digits) || is_empty digits)) [
    | inl bad ↦
        rw (void_limit digits (ground (arith, bad)), bad, set_limit)
          (after_tell fd who target ch [] _ l e refl)
    | inr fine ↦ elim (Bool-cases (is_positive_int (atoi digits))) [
      | inl positive ↦
          rw (positive_limit digits (ground (arith, fine, positive)), fine, set_limit, positive)
            (if-Step fd who target ch (not (ch.user_limit == atoi digits))
              (λ b.
                after_update fd who target ch (limits_to (atoi digits) ∷ [])
                  (set_user_limit (atoi digits)) true b'l' _ l e refl
                  (SameElse-set ch ch.is_invite_only ch.topic_restricted ch.password (atoi digits)))
              (λ b. idle fd who target ch (limits_to (atoi digits) ∷ []) l e (ground (arith, b))))
      | inr void ↦
          rw (void_limit digits (ground (arith, void)), fine, set_limit, void)
            (idle fd who target ch [] l e refl)
    ]
  ]

  clear_limit-Step :
      (l : ModeLoop)
      → find_channel target l.server ≡ some ch
      → Step target
          (plainly (limits_to 0 ∷ []) l.is_plus l.args)
          ch
          l.server
          (clear_limit target ch l)
  unfolding clear_limit apply_changes apply_change
  clear_limit-Step l e =
      if-Step fd who target ch (ltb 0 ch.user_limit)
        (λ b.
          after_update fd who target ch (limits_to 0 ∷ []) (set_user_limit 0) false b'l' _ l e refl
            (SameElse-set ch ch.is_invite_only ch.topic_restricted ch.password 0))
        (λ b. idle fd who target ch (limits_to 0 ∷ []) l e (ground (arith, b)))

  pub mode_k-Step :
      (args : List Text) (l : ModeLoop)
      → find_channel target l.server ≡ some ch
      → Step target
          (read_parameter (read_key l.is_plus) l.is_plus args)
          ch
          l.server
          (mode_k fd who target ch args (record l { args = args }))
  unfolding mode_k read_parameter apply_changes
  mode_k-Step [] l e = idle fd who target ch [] (record l { args = [] }) e refl
  mode_k-Step (key ∷ args) l e =
      let taken : ModeLoop = record l { args = args } in
      if-Step fd who target ch l.is_plus
        (λ b.
          signed key taken (set_key fd who target ch key taken) true b (set_key-Step key taken e))
        (λ b. signed key taken (clear_key target ch key taken) false b (clear_key-Step key taken e))
    where
      signed :
          (key : Text) (l k : ModeLoop) (b : Bool)
          → l.is_plus ≡ b
          → Step target (plainly (read_key b key) l.is_plus l.args) ch l.server k
          → Step target (plainly (read_key (l.is_plus) key) l.is_plus l.args) ch l.server k
      signed key l k b e h =
          subst (λ p. Step target (plainly (read_key p key) l.is_plus l.args) ch l.server k) (sym e)
            h

  -- With a sign the letter `l` is read as it is with its parameter, or without.
  pub mode_l-Step :
      (args : List Text) (l : ModeLoop)
      → find_channel target l.server ≡ some ch
      → Step target
          (if l.is_plus
            then read_parameter read_limit l.is_plus args
            else plainly (limits_to 0 ∷ []) l.is_plus args)
          ch
          l.server
          (mode_l fd who target ch args (record l { args = args }))
  unfolding mode_l read_parameter apply_changes
  mode_l-Step [] l e =
      either-Step fd who target ch l.is_plus
        (idle fd who target ch [] (record l { args = [] }) e refl)
        (clear_limit-Step (record l { args = [] }) e)
  mode_l-Step (digits ∷ args) l e =
      either-Step fd who target ch l.is_plus (set_limit-Step digits (record l { args = args }) e)
        (clear_limit-Step (record l { args = digits ∷ args }) e)
