-- ===== src/Command/Effects/Nick.antt =====
-- src/commands/Nick.cpp: who has which nickname afterwards.
use mathlib.Core.Option
use irc.Base.{
  ℕ, ◌≡◌, refl, Bool, true, false, not, ◌&&◌, ◌||◌, List, [], ◌∷◌, Option, arith, is_empty, get_or,
  ◌==◌, if◌then◌else◌, Option-cases, Bool-cases, inl, inr,
}
use irc.Text.{Text, int_key, text_key}
use irc.Map.{lookup}
use irc.Map.Laws.{lookup-modify}
use irc.Client.{Client, send_message}
use irc.Client.Evolves.{send_message-Told}
use irc.Server.{
  text, Server, tell, broadcast, is_sender, update_client, channel_recipients,
  broadcast_nickname_change,
}
use irc.Command.Nick.{
  is_valid_nickname, is_taken_by_other, set_nick, announce_nick, change_nick, execute_nick,
}
use irc.Command.Effects.Holder.{held_by_other, is_taken_by_other-held}
use irc.Policy.Invariant.All.{Inv}
use irc.Command.User.{greet, welcome}

abbrev pub nickname_at : ℕ → Server → Option Text
nickname_at x s = Option.map (λ (c : Client). c.nickname) (lookup x s.clients)

nickname_at-tell :
    (x fd : ℕ) (m : Text) (s : Server) → nickname_at x (tell fd m s) ≡ nickname_at x s
unfolding tell update_client
nickname_at-tell x fd m s = elim (Option-cases (lookup x s.clients)) [
  | inl e ↦ ground (arith, lookup-modify x fd (send_message m) s.clients)
  | inr (c, e) ↦
      ground (
        arith,
        lookup-modify x fd (send_message m) s.clients,
        (send_message-Told m c).nickname_same,
      )
]

nickname_at-broadcast :
    (x : ℕ) (xs : List ℕ) (m : Text) (sender : Option ℕ) (s : Server)
    → nickname_at x (broadcast xs m sender s) ≡ nickname_at x s
unfolding broadcast
nickname_at-broadcast x [] m sender s = refl
nickname_at-broadcast x (y ∷ xs) m sender s = ground (
  arith,
  nickname_at-broadcast x xs m sender (if is_sender y sender then s else tell y m s),
  nickname_at-tell x y m s,
)

nickname_at-announce_nick :
    (x fd : ℕ) (who : Client) (new_nickname : Text) (s : Server)
    → nickname_at x (announce_nick fd who new_nickname s) ≡ nickname_at x s
unfolding announce_nick broadcast_nickname_change
nickname_at-announce_nick x fd who new_nickname s =
    grind (arith, nickname_at-broadcast x (channel_recipients fd s.channels (fd ∷ [])))

nickname_at-greet :
    (x fd : ℕ) (who : Client) (s : Server) → nickname_at x (greet fd who s) ≡ nickname_at x s
unfolding greet
nickname_at-greet x fd who s = ground (arith, nickname_at-tell x fd (welcome who) s)

nickname_at-set_nick :
    (x fd : ℕ) (nickname : Text) (s : Server)
    → nickname_at x (update_client fd (set_nick nickname) s) ≡ (
        if fd == x
        then Option.map (λ (c : Client). nickname) (lookup x s.clients)
        else nickname_at x s)
unfolding update_client
nickname_at-set_nick x fd nickname s =
    ground (arith, lookup-modify x fd (set_nick nickname) s.clients)

nickname_at-change_nick :
    (x fd : ℕ) (who : Client) (nickname : Text) (s : Server)
    → nickname_at x (change_nick fd who nickname s) ≡ (
        if fd == x
        then Option.map (λ (c : Client). nickname) (lookup x s.clients)
        else nickname_at x s)
unfolding change_nick
nickname_at-change_nick x fd who nickname s =
    let named : Server = update_client fd (set_nick nickname) s in
    ground (
      arith,
      nickname_at-greet x fd (set_nick nickname who) (announce_nick fd who nickname named),
      nickname_at-announce_nick x fd who nickname named,
      nickname_at-set_nick x fd nickname s,
    )

-- What the handler asks.
abbrev accepts : ℕ → List Text → Server → Bool
accepts fd params s =
    not (is_empty params)
    && is_valid_nickname (get_or params 0 [])
    && not (is_taken_by_other fd (get_or params 0 []) s)

refuses_empty : (nickname : Text) → is_empty nickname ≡ true → is_valid_nickname nickname ≡ false
unfolding is_valid_nickname
refuses_empty nickname h = ground arith

-- NICK, by the tests that the handler makes.
execute_nick-changes :
    (x fd : ℕ) (who : Client) (params : List Text) (s : Server)
    → nickname_at x (execute_nick fd who params s) ≡ (
        if accepts fd params s && fd == x
        then Option.map (λ (c : Client). get_or params 0 []) (lookup x s.clients)
        else nickname_at x s)
unfolding execute_nick
execute_nick-changes x fd who params s =
    let new_nickname = get_or params 0 [] in
    elim (Bool-cases (is_empty params || is_empty new_nickname)) [
      | inl nothing ↦
          rw (nothing, execute_nick)
            (ground (
              arith,
              nickname_at-tell x fd (text ":server 431 * :No nickname given\r\n") s,
              refuses_empty new_nickname,
              nothing,
            ))
      | inr given ↦
          rw (given, execute_nick)
            (grind (
              arith,
              nickname_at-tell x fd,
              nickname_at-change_nick x fd who new_nickname s,
              given,
            ))
    ]

-- A nickname is given, it is valid, and no other client that is alive has it under the IRC case
-- mapping.
abbrev pub accepts_nick : ℕ → List Text → Server → Bool
accepts_nick fd params s =
    not (is_empty params)
    && is_valid_nickname (get_or params 0 [])
    && not (held_by_other fd (get_or params 0 []) s.clients)

accepts-accepts_nick :
    (fd : ℕ) (params : List Text) (s : Server)
    → Inv s
    → accepts fd params s ≡ accepts_nick fd params s
accepts-accepts_nick fd params s i = elim (Bool-cases (is_valid_nickname (get_or params 0 []))) [
  | inl valid ↦ rw (is_taken_by_other-held fd (get_or params 0 []) s i.nicks_ok valid) refl
  | inr invalid ↦ rw invalid (ground arith)
]

-- From a state with the invariant, after NICK: if a nickname is given, it is valid, and no other
-- client that is alive has it under the IRC case mapping, then the sender has it, and every other
-- client has the nickname that it had; otherwise every client has.
pub nickname_at-execute_nick :
    (x fd : ℕ) (who : Client) (params : List Text) (s : Server)
    → Inv s
    → nickname_at x (execute_nick fd who params s) ≡ (
        if accepts_nick fd params s && fd == x
        then Option.map (λ (c : Client). get_or params 0 []) (lookup x s.clients)
        else nickname_at x s)
nickname_at-execute_nick x fd who params s i =
    rw (← accepts-accepts_nick fd params s i) (execute_nick-changes x fd who params s)
