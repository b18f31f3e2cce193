-- ===== src/Policy/Refine/Mode.antt =====
-- MODE.
use mathlib.Core.Path.{subst}
use irc.Base.{
  not-false, ℕ, ◌≡◌, refl, Option, Bool, true, false, not, ◌&&◌, ◌||◌, List, [], ◌∷◌, none, some,
  get_or, is_empty, all, ltb, ◌==◌, if◌then◌else◌,
}
use irc.Text.{Text, text_eq, text_key}
use irc.Text.Decimal.{is_digit, atoi, is_positive_int}
use irc.Client.{Client}
use irc.Channel.{Channel, is_member, is_operator}
use irc.Server.{Server, tell, find_client_by_nick, find_channel, update_channel}
use irc.Command.Mode.{
  mode_on, mode_step, mode_loop, announce_modes, mode_start, change_modes, mode_of, execute_mode,
  unknown_mode, show_modes,
}
use irc.Command.Mode.Changes.{
  ModeLoop, note, mode_i, mode_t, mode_k, mode_l, mode_o, set_key, clear_key, set_limit,
  clear_limit, change_operator, on_server, is_bad_key,
}
use irc.Policy.{
  Setting, invite_only, topic_restricted, password, user_limit, apply, sets, promotes, demotes,
  Acts, done, also, Acts-trans, Acts-tell, Acts-if, Acts-either, Acts-option, Acts-broadcast,
  Registered, OperatorOf,
}

-- What the loop has done to the server since the state `s`.
record LoopActs (fd : ℕ) (who : Client) (params : List Text) (start s : Server) (l : ModeLoop)
    : Type 0 where
  acts : Acts fd who params start s l.server

module _ {fd : ℕ} {who : Client} {params : List Text} {start : Server} where
  LoopActs-if :
      {s : Server} {l k : ModeLoop} (b : Bool)
      → (b ≡ true → LoopActs fd who params start s l)
      → (b ≡ false → LoopActs fd who params start s k)
      → LoopActs fd who params start s (if b then l else k)
  LoopActs-if true p q = p refl
  LoopActs-if false p q = q refl

  LoopActs-option :
      {A : Type 0} {s : Server} {l : ModeLoop} {f : A → ModeLoop} (o : Option A)
      → LoopActs fd who params start s l
      → ((a : A) → o ≡ some a → LoopActs fd who params start s (f a))
      → LoopActs fd who params start s (elim o [ none ↦ l | some a ↦ f a ])
  LoopActs-option none p q = p
  LoopActs-option (some a) p q = q a refl

  same : {s : Server} {l : ModeLoop} → s ≡ l.server → LoopActs fd who params start s l
  same {s} {l} e = record { acts = subst (Acts fd who params start s) e done }

  after_tell :
      (x : ℕ) (m : Text) (l : ModeLoop)
      → LoopActs fd who params start l.server (on_server (tell x m) l)
  after_tell x m l = record { acts = Acts-tell x m done }

module _ (fd : ℕ) (who : Client) (params : List Text) (start : Server) (r : Registered who)
    (target : Text) (a : target ≡ get_or params 0 []) (op : OperatorOf fd target start) where
  after_set :
      (change : Setting) (b : Bool) (letter : ℕ) (param : Text) (l : ModeLoop)
      → LoopActs fd who params start l.server
          (note b letter param (on_server (update_channel target (apply change)) l))
  unfolding note
  after_set change b letter param l = record { acts = also done (sets target change r a op) }

  mode_i-Acts :
      (ch : Channel) (l : ModeLoop) → LoopActs fd who params start l.server (mode_i target ch l)
  unfolding mode_i
  mode_i-Acts ch l =
      LoopActs-if (not (ch.is_invite_only && l.is_plus || not ch.is_invite_only && not l.is_plus))
        (λ _. after_set (invite_only l.is_plus) l.is_plus b'i' [] l) (λ _. same refl)

  mode_t-Acts :
      (ch : Channel) (l : ModeLoop) → LoopActs fd who params start l.server (mode_t target ch l)
  unfolding mode_t
  mode_t-Acts ch l =
      LoopActs-if
        (not (ch.topic_restricted && l.is_plus || not ch.topic_restricted && not l.is_plus))
        (λ _. after_set (topic_restricted l.is_plus) l.is_plus b't' [] l) (λ _. same refl)

  set_key-Acts :
      (ch : Channel) (key : Text) (l : ModeLoop)
      → LoopActs fd who params start l.server (set_key fd who target ch key l)
  unfolding set_key
  set_key-Acts ch key l =
      LoopActs-if (is_bad_key key) (λ _. after_tell fd _ l)
        λ _.
          LoopActs-if (is_empty ch.password) (λ _. after_set (password key) true b'k' _ l)
            (λ _. after_tell fd _ l)

  clear_key-Acts :
      (ch : Channel) (key : Text) (l : ModeLoop)
      → LoopActs fd who params start l.server (clear_key target ch key l)
  unfolding clear_key
  clear_key-Acts ch key l =
      LoopActs-if (text_eq ch.password key) (λ _. after_set (password []) false b'k' _ l)
        (λ _. same refl)

  mode_k-Acts :
      (ch : Channel) (args : List Text) (l : ModeLoop)
      → LoopActs fd who params start l.server (mode_k fd who target ch args l)
  unfolding mode_k
  mode_k-Acts ch [] l = same refl
  mode_k-Acts ch (key ∷ args) l =
      LoopActs-if l.is_plus (λ _. set_key-Acts ch key (record l { args = args }))
        (λ _. clear_key-Acts ch key (record l { args = args }))

  set_limit-Acts :
      (ch : Channel) (limit_str : Text) (l : ModeLoop)
      → LoopActs fd who params start l.server (set_limit fd who target ch limit_str l)
  unfolding set_limit
  set_limit-Acts ch limit_str l =
      LoopActs-if (not (all is_digit limit_str) || is_empty limit_str) (λ _. after_tell fd _ l)
        λ _.
          LoopActs-if (is_positive_int (atoi limit_str) && not (ch.user_limit == atoi limit_str))
            (λ _. after_set (user_limit (atoi limit_str)) true b'l' _ l) (λ _. same refl)

  clear_limit-Acts :
      (ch : Channel) (l : ModeLoop)
      → LoopActs fd who params start l.server (clear_limit target ch l)
  unfolding clear_limit
  clear_limit-Acts ch l =
      LoopActs-if (ltb 0 ch.user_limit) (λ _. after_set (user_limit 0) false b'l' _ l)
        (λ _. same refl)

  mode_l-Acts :
      (ch : Channel) (args : List Text) (l : ModeLoop)
      → LoopActs fd who params start l.server (mode_l fd who target ch args l)
  unfolding mode_l
  mode_l-Acts ch [] l = LoopActs-if l.is_plus (λ _. same refl) (λ _. clear_limit-Acts ch l)
  mode_l-Acts ch (limit_str ∷ args) l =
      LoopActs-if l.is_plus (λ _. set_limit-Acts ch limit_str (record l { args = args }))
        (λ _. clear_limit-Acts ch l)

  change_operator-Acts :
      (ch : Channel) (nick : Text) (client : ℕ) (l : ModeLoop)
      → find_channel target l.server ≡ some ch
      → is_member client ch ≡ true
      → LoopActs fd who params start l.server (change_operator target ch nick client l)
  unfolding change_operator note
  change_operator-Acts ch nick client l e m =
      LoopActs-if (l.is_plus && not (is_operator client ch))
        (λ _. record { acts = also done (promotes target ch client r a op e m) })
        λ _.
          LoopActs-if (not l.is_plus && is_operator client ch)
            (λ _. record { acts = also done (demotes target client r a op) }) (λ _. same refl)

  mode_o-Acts :
      (ch : Channel) (args : List Text) (l : ModeLoop)
      → find_channel target l.server ≡ some ch
      → LoopActs fd who params start l.server (mode_o fd who target ch args l)
  unfolding mode_o
  mode_o-Acts ch [] l e = same refl
  mode_o-Acts ch (nick ∷ args) l e =
      LoopActs-option (find_client_by_nick nick l.server)
        (after_tell fd _ (record l { args = args }))
        λ client _.
          LoopActs-if (is_member client ch)
            (λ m. change_operator-Acts ch nick client (record l { args = args }) e m)
            (λ _. after_tell fd _ (record l { args = args }))

  mode_step-Acts :
      (c : ℕ) (l : ModeLoop) → LoopActs fd who params start l.server (mode_step fd who target c l)
  unfolding mode_step mode_on
  mode_step-Acts c l = LoopActs-option (find_channel target l.server) (same refl) λ ch e.
      LoopActs-if (c == b'+') (λ _. same refl)
        λ _.
          LoopActs-if (c == b'-') (λ _. same refl)
            λ _.
              LoopActs-if (c == b'i') (λ _. mode_i-Acts ch l)
                λ _.
                  LoopActs-if (c == b't') (λ _. mode_t-Acts ch l)
                    λ _.
                      LoopActs-if (c == b'k') (λ _. mode_k-Acts ch l.args l)
                        λ _.
                          LoopActs-if (c == b'l') (λ _. mode_l-Acts ch l.args l)
                            λ _.
                              LoopActs-if (c == b'o') (λ _. mode_o-Acts ch l.args l e)
                                (λ _. same refl)

  mode_loop-Acts :
      (mode_string : Text) (l : ModeLoop)
      → Acts fd who params start l.server (mode_loop fd who target mode_string l).server
  unfolding mode_loop
  mode_loop-Acts [] l = done
  mode_loop-Acts (c ∷ cs) l =
      Acts-trans (mode_step-Acts c l).acts (mode_loop-Acts cs (mode_step fd who target c l))

  change_modes-Acts :
      (mode_string : Text) (args : List Text) (s : Server)
      → Acts fd who params start s (change_modes fd who target mode_string args s)
  unfolding change_modes announce_modes
  change_modes-Acts mode_string args s =
      let l : ModeLoop = mode_loop fd who target mode_string (mode_start args s) in
      let looped = mode_loop-Acts mode_string (mode_start args s) in
      Acts-either (not (is_empty (unknown_mode mode_string))) (Acts-tell _ _ done) (
        Acts-either (is_empty l.applied_modes) looped (
          Acts-option (find_channel target l.server) (λ _. looped)
            (λ ch _. Acts-broadcast _ _ _ looped)))

mode_of-Acts :
    (fd : ℕ) (who : Client) (params : List Text) (s : Server)
    → Registered who
    → (target : Text) (ch : Channel) (args : List Text) → target ≡ get_or params 0 []
    → find_channel target s ≡ some ch
    → Acts fd who params s s (mode_of fd who target ch args s)
unfolding mode_of show_modes
mode_of-Acts fd who params s r target ch [] a e = Acts-tell _ _ done
mode_of-Acts fd who params s r target ch (mode_string ∷ args) a e =
    Acts-if (not (is_operator fd ch)) (λ _. Acts-tell _ _ done)
      (λ op.
        change_modes-Acts fd who params s r target a (ch, e, not-false _ op) mode_string args s)

-- MODE of a registered client is a sequence of acts that the policy grants.
pub execute_mode-Acts :
    (fd : ℕ) (who : Client) (params : List Text) (s : Server)
    → Registered who
    → Acts fd who params s s (execute_mode fd who params s)
unfolding execute_mode show_modes
execute_mode-Acts fd who [] s r = Acts-tell _ _ done
execute_mode-Acts fd who (target ∷ rest) s r =
    Acts-either (not (get_or target 0 0 == b'#') && not (get_or target 0 0 == b'&')) done (
      Acts-option (find_channel target s) (λ _. Acts-tell _ _ done)
        (λ ch e. mode_of-Acts fd who (target ∷ rest) s r target ch rest refl e))
