-- ===== src/Command/Mode/Meaning/Shown.antt =====
-- What MODE shows of a channel, read back as a mode string with parameters.
use irc.Base.{
  ℕ, ◌≡◌, ◌<◌, refl, ap, ◌∙◌, Bool, true, false, List, [], ◌∷◌, ◌++◌, arith, is_empty, ltb, get_or,
  ◌==◌, ◌||◌, some, map, if◌then◌else◌, Bool-cases, inl, inr,
}
use irc.Text.{Text, text_eq}
use irc.Text.Decimal.{digits_value, to_decimal, int_limit}
use irc.Text.Decimal.RoundTrip.{atoi-to_decimal, value-to_decimal}
use irc.Channel.{Channel, is_operator}
use irc.Server.{Server, text, line, find_channel}
use irc.Client.{Client}
use irc.Command.Mode.{active_modes, mode_arguments, unknown_mode, is_mode_byte, execute_mode}
use irc.Command.Mode.Changes.{is_bad_key, parameter}
use irc.Command.Mode.Meaning.Loop.{granted, execute_mode-Changed}
use irc.Command.Mode.Meaning.{
  Settings, settings, invited_only, restricts_topic, gives_key, limits_to, apply_change,
  apply_changes, read_key, read_limit, read_parameter, read_letter, read_modes,
}

-- The parameters of `k` and `l` that are shown.
abbrev pub shown_key : Channel → List Text
shown_key ch = if is_empty ch.password then [] else ch.password ∷ []

abbrev pub shown_limit : Channel → List Text
shown_limit ch = if ltb 0 ch.user_limit then to_decimal ch.user_limit ∷ [] else []

mode_arguments_lem :
    (ch : Channel) → mode_arguments ch ≡ line (map parameter (shown_key ch ++ shown_limit ch))
unfolding mode_arguments line
mode_arguments_lem ch = ground arith

read_i :
    (b : Bool) (rest : Text) (args : List Text)
    → read_modes true ((if b then text "i" else []) ++ rest) args
      ≡ (if b then invited_only true ∷ [] else []) ++ read_modes true rest args
unfolding read_modes read_letter text
read_i true rest args = refl
read_i false rest args = refl

read_t :
    (b : Bool) (rest : Text) (args : List Text)
    → read_modes true ((if b then text "t" else []) ++ rest) args
      ≡ (if b then restricts_topic true ∷ [] else []) ++ read_modes true rest args
unfolding read_modes read_letter text
read_t true rest args = refl
read_t false rest args = refl

read_k :
    (key rest : Text) (args : List Text)
    → is_bad_key key ≡ false
    → read_modes true
        ((if is_empty key then [] else text "k") ++ rest)
        ((if is_empty key then [] else key ∷ []) ++ args)
      ≡ (if is_empty key then [] else gives_key key ∷ []) ++ read_modes true rest args
unfolding read_modes read_letter read_parameter text
read_k [] rest args good = refl
read_k (c ∷ key) rest args good = unfold read_key in rw good refl

-- The digits of a limit are read as the limit.
read_limit-to_decimal :
    (n : ℕ) → n < int_limit → ltb 0 n ≡ true → read_limit (to_decimal n) ≡ limits_to n ∷ []
unfolding read_limit digits_value
read_limit-to_decimal n h positive =
    let (value, good) = atoi-to_decimal n h in
    let (digits, same) = value-to_decimal n (omega (arith, h)) in
    let some_digit : is_empty (to_decimal n) ≡ false = some_digits (to_decimal n) n same positive in
    rw (digits, some_digit, good, positive, value, read_limit) refl
  where
    some_digits : (s : Text) (n : ℕ) → digits_value 0 s ≡ n → ltb 0 n ≡ true → is_empty s ≡ false
    some_digits [] n e p = absurd (ground arith)
    some_digits (c ∷ s) n e p = refl

read_l :
    (n : ℕ)
    → n < int_limit
    → read_modes true
        ((if ltb 0 n then text "l" else []) ++ [])
        (if ltb 0 n then to_decimal n ∷ [] else [])
      ≡ (if ltb 0 n then limits_to n ∷ [] else [])
unfolding read_modes read_letter read_parameter text
read_l n h = elim (Bool-cases (ltb 0 n)) [
  | inl positive ↦ rw (positive, read_limit-to_decimal n h positive) refl
  | inr none_set ↦ rw none_set refl
]

-- The sign alone is left out.
drop_sign :
    (modes : Text) (args : List Text)
    → read_modes true (if text_eq (b'+' ∷ modes) (b'+' ∷ []) then [] else b'+' ∷ modes) args
      ≡ read_modes true modes args
unfolding read_modes read_letter text_eq
drop_sign [] args = refl
drop_sign (c ∷ modes) args = refl

-- The letters, whether or not the sign alone is left out.
read_active_modes :
    (ch : Channel) (args : List Text)
    → read_modes true (active_modes ch) args
      ≡ read_modes true
          (line (
            (if ch.is_invite_only then text "i" else [])
            ∷ (if ch.topic_restricted then text "t" else [])
            ∷ (if is_empty ch.password then [] else text "k")
            ∷ (if ltb 0 ch.user_limit then text "l" else [])
            ∷ []))
          args
unfolding active_modes line text
read_active_modes ch args = drop_sign _ args

-- A channel as it is created has no modes.
abbrev pub no_settings : Settings
no_settings = record { invite_only = false; topic_restricted = false; key = []; limit = 0 }

apply_shown :
    (i t : Bool) (key : Text) (n : ℕ)
    → apply_changes
        ((if i then invited_only true ∷ [] else [])
          ++ ((if t then restricts_topic true ∷ [] else [])
              ++ ((if is_empty key then [] else gives_key key ∷ [])
                  ++ (if ltb 0 n then limits_to n ∷ [] else []))))
        no_settings
      ≡ record { invite_only = i; topic_restricted = t; key = key; limit = n }
unfolding apply_changes apply_change
apply_shown true true [] n = ground arith
apply_shown true true (c ∷ key) n = ground arith
apply_shown true false [] n = ground arith
apply_shown true false (c ∷ key) n = ground arith
apply_shown false true [] n = ground arith
apply_shown false true (c ∷ key) n = ground arith
apply_shown false false [] n = ground arith
apply_shown false false (c ∷ key) n = ground arith

-- The letters that are shown, read with the parameters that are shown, give a new channel the
-- settings.
settings-shown :
    (ch : Channel)
    → is_bad_key ch.password ≡ false
    → ch.user_limit < int_limit
    → apply_changes (read_modes true (active_modes ch) (shown_key ch ++ shown_limit ch)) no_settings
      ≡ settings ch
unfolding line
settings-shown ch good h =
    rw
      (
        read_active_modes ch (shown_key ch ++ shown_limit ch),
        line,
        read_i ch.is_invite_only,
        read_t ch.topic_restricted,
        read_k ch.password _ (shown_limit ch) good,
        read_l ch.user_limit h,
      )
      (apply_shown ch.is_invite_only ch.topic_restricted ch.password ch.user_limit)

-- The letters that MODE shows of a channel with these modes.
abbrev shown_letters : Bool → Bool → Bool → Bool → Text
shown_letters i t k l =
    let modes = line (
      text "+"
      ∷ (if i then text "i" else [])
      ∷ (if t then text "t" else [])
      ∷ (if k then [] else text "k")
      ∷ (if l then text "l" else [])
      ∷ []) in
    if text_eq modes (text "+") then [] else modes

known_letters : (i t k l : Bool) → unknown_mode (shown_letters i t k l) ≡ []
unfolding unknown_mode is_mode_byte line text text_eq
known_letters i t k l = ground arith

known_shown : (ch : Channel) → unknown_mode (active_modes ch) ≡ []
unfolding active_modes
known_shown ch =
    known_letters ch.is_invite_only ch.topic_restricted (is_empty ch.password) (ltb 0 ch.user_limit)

-- The parameters of the MODE command that asks for what MODE shows of the channel.
abbrev pub copy_modes : Text → Channel → List Text
copy_modes target source = target ∷ active_modes source ∷ shown_key source ++ shown_limit source

-- The arguments that MODE shows of a channel are the parameters `shown_key` and `shown_limit`, each
-- behind a space; and if an operator of another channel, which has no modes, sends MODE for that one,
-- whose name begins with # or &, with the letters that MODE shows of the first and these parameters, then it has afterwards the
-- invitation, topic, key and limit settings of the first, whose key may be set and whose limit is
-- an `int`.
pub settings-copy_modes :
    (fd : ℕ) (who : Client) (target : Text) (ch source : Channel) (s : Server)
    → find_channel target s ≡ some ch
    → (get_or target 0 0 == b'#' || get_or target 0 0 == b'&') ≡ true
    → is_operator fd ch ≡ true
    → settings ch ≡ no_settings
    → is_bad_key source.password ≡ false
    → source.user_limit < int_limit
    → (mode_arguments source ≡ line (map parameter (shown_key source ++ shown_limit source)))
      × (now : Channel) × (find_channel target (execute_mode fd who (copy_modes target source) s)
          ≡ some now)
      × (settings now ≡ settings source)
settings-copy_modes fd who target ch source s e prefixed op plain good h =
    let args = shown_key source ++ shown_limit source in
    let modes = active_modes source in
    let changed = execute_mode-Changed fd who target modes args ch s e in
    let asked : granted fd target ch modes args ≡ read_modes true modes args =
      unfold granted in ground (arith, prefixed, op, known_shown source) in
    (
      mode_arguments_lem source,
      changed.now,
      changed.found,
      changed.settings_lem
          ∙ ap (λ cs. apply_changes cs (settings ch)) asked
          ∙ ap (apply_changes (read_modes true modes args)) plain
          ∙ settings-shown source good h,
    )
