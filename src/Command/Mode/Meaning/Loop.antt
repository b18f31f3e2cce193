-- ===== src/Command/Mode/Meaning/Loop.antt =====
-- The loop over the mode string makes the changes that the string asks for, in its order, and no
-- other to the settings.
use irc.Base.{
  ℕ, ◌≡◌, refl, sym, ap, ◌∙◌, true, false, not, ◌&&◌, ◌||◌, List, [], ◌∷◌, ◌++◌, Option, none, some,
  arith, get_or, is_empty, ◌==◌, if◌then◌else◌, Bool-cases, inl, inr,
}
use irc.Text.{Text, text_key}
use irc.Client.{Client}
use irc.Channel.{Channel, is_operator}
use irc.Server.{Server, broadcast, find_channel}
use irc.Command.Effects.{find_channel-broadcast}
use irc.Command.Mode.{
  mode_step, mode_loop, announce_modes, mode_start, change_modes, mode_of, execute_mode,
  unknown_mode,
}
use irc.Command.Mode.Changes.{ModeLoop}
use irc.Command.Mode.Meaning.{
  Settings, settings, Change, apply_change, apply_changes, read_letter, read_modes,
}
use irc.Command.Mode.Meaning.Changed.{Changed, still, told}
use irc.Command.Mode.Meaning.Step.{Step}
use irc.Command.Mode.Meaning.Letters.{mode_on-Step}

apply_changes-append :
    (xs ys : List Change) (s : Settings)
    → apply_changes (xs ++ ys) s ≡ apply_changes ys (apply_changes xs s)
unfolding apply_changes
apply_changes-append [] ys s = refl
apply_changes-append (x ∷ xs) ys s = apply_changes-append xs ys (apply_change x s)

Changed-trans :
    {target : Text} {xs ys : List Change} {ch : Channel} {s t u : Server}
    → (p : Changed target xs ch s t) → Changed target ys (p.now) t u
    → Changed target (xs ++ ys) ch s u
Changed-trans {xs = xs} {ys = ys} {ch = ch} p q = record {
  now = q.now;
  found = q.found;
  settings_lem =
      q.settings_lem
      ∙ ap (apply_changes ys) p.settings_lem
      ∙ sym (apply_changes-append xs ys (settings ch));
  same_else = record {
    name_same = q.same_else.name_same ∙ p.same_else.name_same;
    topic_same = q.same_else.topic_same ∙ p.same_else.topic_same;
    members_same = q.same_else.members_same ∙ p.same_else.members_same;
    invited_same = q.same_else.invited_same ∙ p.same_else.invited_same;
  };
  others = λ other d. q.others other d ∙ p.others other d;
}

mode_loop-Changed :
    (fd : ℕ) (who : Client) (target mode_string : Text) (ch : Channel) (l : ModeLoop)
    → find_channel target l.server ≡ some ch
    → Changed target
        (read_modes l.is_plus mode_string l.args)
        ch
        l.server
        (mode_loop fd who target mode_string l).server
unfolding mode_loop read_modes mode_step
mode_loop-Changed fd who target [] ch l e =
    still target [] ch l.server e (unfold apply_changes in refl)
mode_loop-Changed fd who target (c ∷ cs) ch l e =
    let next : ModeLoop = mode_step fd who target c l in
    let step : Step target (read_letter c l.is_plus l.args) ch l.server next =
      rw (e, mode_step) (mode_on-Step fd who target ch c l e) in
    Changed-trans step.changed (
      rw (← step.plus_lem, ← step.args_lem)
        (mode_loop-Changed fd who target cs step.changed.now next step.changed.found))

-- The changes that are granted: those of the string, if it has no unknown letter, from an operator
-- of the channel.
unfoldable pub granted : ℕ → Text → Channel → Text → List Text → List Change
granted fd target ch mode_string args =
    if (get_or target 0 0 == b'#' || get_or target 0 0 == b'&')
      && is_operator fd ch
      && is_empty (unknown_mode mode_string)
    then read_modes true mode_string args
    else []

-- A broadcast changes no channel.
broadcast-Changed :
    {target : Text} {changes : List Change} {ch : Channel} {s t : Server} (xs : List ℕ) (m : Text)
    (sender : Option ℕ)
    → Changed target changes ch s t
    → Changed target changes ch s (broadcast xs m sender t)
broadcast-Changed {target} {t = t} xs m sender h = record {
  now = h.now;
  found = find_channel-broadcast target xs m sender t ∙ h.found;
  settings_lem = h.settings_lem;
  same_else = h.same_else;
  others = λ other d. find_channel-broadcast other xs m sender t ∙ h.others other d;
}

announce_modes-Changed :
    {target : Text} {changes : List Change} {ch : Channel} {s : Server} (who : Client)
    (l : ModeLoop)
    → Changed target changes ch s l.server
    → Changed target changes ch s (announce_modes who target l)
unfolding announce_modes
announce_modes-Changed {target} who l h = elim (Bool-cases (is_empty l.applied_modes)) [
  | inl nothing ↦ rw (nothing, announce_modes) h
  | inr something ↦
      rw (something, h.found, announce_modes) (broadcast-Changed h.now.members _ none h)
]

change_modes-Changed :
    (fd : ℕ) (who : Client) (target mode_string : Text) (args : List Text) (ch : Channel)
    (s : Server)
    → find_channel target s ≡ some ch
    → Changed target
        (if is_empty (unknown_mode mode_string) then read_modes true mode_string args else [])
        ch
        s
        (change_modes fd who target mode_string args s)
unfolding change_modes
change_modes-Changed fd who target mode_string args ch s e =
    elim (Bool-cases (is_empty (unknown_mode mode_string))) [
      | inl known ↦
          rw (known, change_modes)
            (announce_modes-Changed who _
              (mode_loop-Changed fd who target mode_string ch (mode_start args s) e))
      | inr unknown ↦
          rw (unknown, change_modes) (told target [] ch fd _ s e (unfold apply_changes in refl))
    ]

module _ (fd : ℕ) (target mode_string : Text) (args : List Text) (ch : Channel) where
  is_granted :
      (get_or target 0 0 == b'#' || get_or target 0 0 == b'&') ≡ true
      → is_operator fd ch ≡ true
      → granted fd target ch mode_string args
        ≡ (if is_empty (unknown_mode mode_string) then read_modes true mode_string args else [])
  unfolding granted
  is_granted p o = rw (p, o, granted) refl

  not_granted :
      ((get_or target 0 0 == b'#' || get_or target 0 0 == b'&') && is_operator fd ch) ≡ false
      → granted fd target ch mode_string args ≡ []
  unfolding granted
  not_granted h = ground (arith, h)

-- For every channel of the server and every MODE command with a mode string: the settings of the
-- channel (invitation, topic, key, limit) are afterwards what the changes of the string, read
-- independently of the channel, make of them one after the other, if the sender is an operator of
-- the channel and the string has no unknown letter, and otherwise what they were. The channel's name,
-- topic, members and invitations, and all other channels, are as they were.
pub execute_mode-Changed :
    (fd : ℕ) (who : Client) (target mode_string : Text) (args : List Text) (ch : Channel)
    (s : Server)
    → find_channel target s ≡ some ch
    → Changed target
        (granted fd target ch mode_string args)
        ch
        s
        (execute_mode fd who (target ∷ mode_string ∷ args) s)
unfolding execute_mode mode_of
execute_mode-Changed fd who target mode_string args ch s e =
    elim (Bool-cases (not (get_or target 0 0 == b'#') && not (get_or target 0 0 == b'&'))) [
      | inl other ↦
          let void = not_granted fd target mode_string args ch (ground (arith, other)) in
          rw (void, other, execute_mode) (still target [] ch s e (unfold apply_changes in refl))
      | inr prefixed ↦ elim (Bool-cases (is_operator fd ch)) [
        | inl op ↦
            rw
              (
                is_granted fd target mode_string args ch (ground (arith, prefixed)) op,
                prefixed,
                e,
                execute_mode,
                op,
                mode_of,
              )
              (change_modes-Changed fd who target mode_string args ch s e)
        | inr stranger ↦
            let void = not_granted fd target mode_string args ch (ground (arith, stranger)) in
            rw (void, prefixed, e, execute_mode, stranger, mode_of)
              (told target [] ch fd _ s e (unfold apply_changes in refl))
      ]
    ]
