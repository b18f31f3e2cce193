-- ===== src/Policy/Invariant/Nicks.antt =====
-- No two clients that are alive have the same nickname under the IRC case mapping.
use irc.Base.{
  ℕ, ◌≡◌, ◌≢◌, refl, sym, ap, ◌∙◌, ◌⊎◌, true, false, arith, List, [], ◌∷◌, some, Option-cases, inl,
  inr,
}
use irc.Text.{Text, int_key, text_key}
use irc.Text.Casemap.{lower_of_nil, lower_nil, to_irc_lower_case}
use irc.Map.{Map, lookup, modify}
use irc.Map.Laws.{lookup-modify}
use irc.Client.{Client, send_message, mark_closing, record_failed_pass_attempt}
use irc.Client.Evolves.{send_message-Told, mark_closing-Told}
use irc.Server.{
  Server, tell, remove_channel, update_client, update_channel, find_nick, find_client_by_nick,
}
use irc.Server.Find.{Above, Sorted, find_nick-none, find_nick-some}
use irc.Command.Nick.{is_valid_nickname, is_taken_by_other}
use irc.Policy
use irc.Policy.Invariant.Channels.{clients-create_channel}

abbrev pub NicksUnique : Map ℕ Client → Type 0
NicksUnique m =
    (x y : ℕ) (c d : Client)
    → lookup x m ≡ some c
    → lookup y m ≡ some d
    → c.dead ≡ false
    → d.dead ≡ false
    → c.nickname ≢ []
    → to_irc_lower_case c.nickname ≡ to_irc_lower_case d.nickname
    → x ≡ y

-- The client keeps its nickname and does not come back to life.
abbrev SameNick : (Client → Client) → Type 0
SameNick f = (c : Client) → ((f c).nickname ≡ c.nickname) × ((f c).dead ≡ false → c.dead ≡ false)

-- A client after the write was one before it, with the same nickname.
modify_back :
    (fd : ℕ) (f : Client → Client) (m : Map ℕ Client) (x : ℕ) (c : Client)
    → SameNick f
    → lookup x (modify fd f m) ≡ some c
    → c.dead ≡ false
    → (b : Client) × (lookup x m ≡ some b) × (b.dead ≡ false) × (c.nickname ≡ b.nickname)
modify_back fd f m x c keep e a = elim (Option-cases (lookup x m)) [
  | inl none_there ↦ absurd (ground (arith, lookup-modify x fd f m))
  | inr (b, there) ↦ (
    b,
    there,
    ground (arith, lookup-modify x fd f m, keep b),
    ground (arith, lookup-modify x fd f m, keep b),
  )
]

pub modify-NicksUnique :
    (fd : ℕ) (f : Client → Client) (m : Map ℕ Client)
    → SameNick f
    → NicksUnique m
    → NicksUnique (modify fd f m)
modify-NicksUnique fd f m keep u x y c d lx ly ax ay ne e =
    let (b, lb, ab, nb) = modify_back fd f m x c keep lx ax in
    let (b', lb', ab', nb') = modify_back fd f m y d keep ly ay in
    u x y b b' lb lb' ab ab' (λ z. ne (nb ∙ z)) (rw (← nb, ← nb') e)

Above-modify :
    (b fd : ℕ) (f : Client → Client) (m : Map ℕ Client) → Above b m → Above b (modify fd f m)
unfolding modify
Above-modify b fd f [] a = tt
Above-modify b fd f ((k, c) ∷ m) a = ground (arith, Above-modify b fd f m a.1)

pub Sorted-modify :
    (fd : ℕ) (f : Client → Client) (m : Map ℕ Client) → Sorted m → Sorted (modify fd f m)
unfolding modify
Sorted-modify fd f [] s = tt
Sorted-modify fd f ((k, c) ∷ m) s =
    ground (arith, Sorted-modify fd f m s.1, Above-modify k fd f m s.0)

valid_ne_nil : (n : Text) → is_valid_nickname n ≡ true → n ≢ []
unfolding is_valid_nickname
valid_ne_nil [] v e = cc
valid_ne_nil (c ∷ n) v e = cc

-- A nickname that nobody else has, by the search that NICK makes, is nobody else's indeed.
pub free_nick :
    (fd : ℕ) (n : Text) (s : Server) (y : ℕ) (d : Client)
    → Sorted s.clients
    → NicksUnique s.clients
    → is_valid_nickname n ≡ true
    → is_taken_by_other fd n s ≡ false
    → lookup y s.clients ≡ some d
    → d.dead ≡ false
    → to_irc_lower_case d.nickname ≡ to_irc_lower_case n
    → y ≡ fd
unfolding find_client_by_nick
free_nick fd n s y d o u v t l a e =
    let nonempty = valid_ne_nil n v in
    elim (Option-cases (find_nick (to_irc_lower_case n) s.clients)) [
      | inl gone ↦ absurd (find_nick-none (to_irc_lower_case n) s.clients y d gone l a e)
      | inr (owner, found) ↦
          let (c, lc, ac, q) = find_nick-some (to_irc_lower_case n) s.clients {x = owner} o found in
          let named : c.nickname ≢ [] = λ z. nonempty (lower_of_nil n (sym q ∙ (rw z lower_nil))) in
          let same : owner ≡ y = u owner y c d lc l ac a named (q ∙ sym e) in
          ground (arith, same, found, nonempty)
    ]

-- After a renaming a client has the new nickname, or is as it was.
renamed :
    (fd : ℕ) (n : Text) (m : Map ℕ Client) (x : ℕ) (c : Client)
    → lookup x (modify fd (λ c. record c { nickname = n; nick_set = true }) m) ≡ some c
    → ((x ≡ fd) × (c.nickname ≡ n)) ⊎ (lookup x m ≡ some c)
renamed fd n m x c e = elim (Option-cases (lookup x m)) [
  | inl gone ↦ absurd (
      ground
        (arith, lookup-modify x fd (λ (c : Client). record c { nickname = n; nick_set = true }) m))
  | inr (b, there) ↦
      ground
        (arith, lookup-modify x fd (λ (c : Client). record c { nickname = n; nick_set = true }) m)
]

rename-NicksUnique :
    (fd : ℕ) (n : Text) (s : Server)
    → Sorted s.clients
    → NicksUnique s.clients
    → is_valid_nickname n ≡ true
    → is_taken_by_other fd n s ≡ false
    → NicksUnique (modify fd (λ c. record c { nickname = n; nick_set = true }) s.clients)
rename-NicksUnique fd n s o u v t x y c d lx ly ax ay ne e = elim (renamed fd n s.clients x c lx) [
  | inl (xf, cn) ↦ elim (renamed fd n s.clients y d ly) [
    | inl (yf, dn) ↦ xf ∙ sym yf
    | inr oldy ↦ xf ∙ sym (free_nick fd n s y d o u v t oldy ay (sym e ∙ ap to_irc_lower_case cn))
  ]
  | inr oldx ↦ elim (renamed fd n s.clients y d ly) [
    | inl (yf, dn) ↦ free_nick fd n s x c o u v t oldx ax (e ∙ ap to_irc_lower_case dn) ∙ sym yf
    | inr oldy ↦ u x y c d oldx oldy ax ay ne e
  ]
]

told-SameNick : (m : Text) → SameNick (send_message m)
told-SameNick m c = ground (arith, send_message-Told m c)

closing-SameNick : (m : Text) → SameNick (mark_closing m)
closing-SameNick m c = ground (arith, mark_closing-Told m c)

failed-SameNick : SameNick record_failed_pass_attempt
unfolding record_failed_pass_attempt
failed-SameNick c = ground arith

-- The two facts about the clients that the search by nickname needs.
pub record NicksOk (m : Map ℕ Client) : Type 0 where
  pub sorted : Sorted m
  pub unique : NicksUnique m

pub modify-NicksOk :
    (fd : ℕ) (f : Client → Client) (m : Map ℕ Client)
    → SameNick f
    → NicksOk m
    → NicksOk (modify fd f m)
modify-NicksOk fd f m keep k = record {
  sorted = Sorted-modify fd f m k.sorted;
  unique = modify-NicksUnique fd f m keep k.unique;
}

module _ {fd : ℕ} {who : Client} {params : List Text} {start : Server} where
  pub Act-NicksOk :
      {s t : Server} → Policy.Act fd who params start s t → NicksOk s.clients → NicksOk t.clients
  unfolding tell update_client update_channel remove_channel
  Act-NicksOk (Policy.tells x m) k = modify-NicksOk x _ _ (told-SameNick m) k
  Act-NicksOk (Policy.authenticates p) k = modify-NicksOk fd _ _ (λ c. (refl, λ h. h)) k
  Act-NicksOk Policy.fails_pass k = modify-NicksOk fd _ _ failed-SameNick k
  Act-NicksOk (Policy.closes reason) k = modify-NicksOk fd _ _ (closing-SameNick reason) k
  Act-NicksOk (Policy.identifies u p a v) k = modify-NicksOk fd _ _ (λ c. (refl, λ h. h)) k
  Act-NicksOk {s} (Policy.renames n p a v f) k = record {
    sorted = Sorted-modify fd _ s.clients k.sorted;
    unique = rename-NicksUnique fd n s k.sorted k.unique v f;
  }
  Act-NicksOk {s} (Policy.creates name r a v e) k = rw (clients-create_channel name s) k
  Act-NicksOk (Policy.joins name ch r e m) k = k
  Act-NicksOk (Policy.leaves name r a) k = k
  Act-NicksOk (Policy.removes name ch r e z) k = k
  Act-NicksOk (Policy.kicks name ch target r a e op m) k = k
  Act-NicksOk (Policy.invites name ch target r a e m o i) k = k
  Act-NicksOk (Policy.retopics name topic ch r a e m op) k = k
  Act-NicksOk (Policy.sets name change r a op) k = k
  Act-NicksOk (Policy.promotes name ch target r a op e m) k = k
  Act-NicksOk (Policy.demotes name target r a op) k = k
