-- ===== src/Command/Effects/Holder.antt =====
-- src/commands/Nick.cpp: who has a nickname, read off the clients one by one, and the search that NICK
-- makes.
use irc.Base.{
  ℕ, ◌≡◌, sym, ◌∙◌, Bool, true, false, not, ◌&&◌, ◌||◌, [], ◌∷◌, some, arith, ◌==◌, Option-cases,
  Bool-cases, inl, inr,
}
use irc.Text.{Text, text_eq, text_eq_iff, int_key}
use irc.Text.Casemap.{to_irc_lower_case}
use irc.Map.{Map, lookup}
use irc.Client.{Client}
use irc.Server.{Server, find_client_by_nick}
use irc.Server.Find.{Sorted, lookup_below, find_nick-some}
use irc.Command.Nick.{is_valid_nickname, is_taken_by_other}
use irc.Policy.Invariant.Nicks.{NicksOk, free_nick}

-- The client at `k` is another one than `fd`, is alive, and has the nickname under the IRC case
-- mapping.
abbrev pub is_other_holder : ℕ → Text → ℕ → Client → Bool
is_other_holder fd n k c =
    not (k == fd) && (not c.dead && text_eq (to_irc_lower_case c.nickname) (to_irc_lower_case n))

-- One of the clients is such a one.
abbrev pub held_by_other : ℕ → Text → Map ℕ Client → Bool
held_by_other fd n [] = false
held_by_other fd n ((k, c) ∷ m) = is_other_holder fd n k c || held_by_other fd n m

held-some :
    (fd : ℕ) (n : Text) (m : Map ℕ Client)
    → Sorted m
    → held_by_other fd n m ≡ true
    → (y : ℕ) × (d : Client) × (lookup y m ≡ some d) × (is_other_holder fd n y d ≡ true)
unfolding lookup
held-some fd n [] s h = absurd cc
held-some fd n ((k, c) ∷ m) s h = elim (Bool-cases (is_other_holder fd n k c)) [
  | inl hit ↦ (k, c, ground arith, hit)
  | inr miss ↦
      let (y, d, l, q) = held-some fd n m s.1 (ground (arith, miss, h)) in
      (y, d, ground (arith, l, lookup_below y k m s.0), q)
]

held-lookup :
    (fd : ℕ) (n : Text) (m : Map ℕ Client) (y : ℕ) (d : Client)
    → lookup y m ≡ some d
    → is_other_holder fd n y d ≡ true
    → held_by_other fd n m ≡ true
unfolding lookup
held-lookup fd n [] y d l h = absurd cc
held-lookup fd n ((k, c) ∷ m) y d l h = elim (Bool-cases (y == k)) [
  | inl here ↦ ground (arith, l, h, here)
  | inr away ↦ ground (arith, held-lookup fd n m y d (ground (arith, l, away)) h)
]

held-taken :
    (fd : ℕ) (n : Text) (s : Server)
    → NicksOk s.clients
    → is_valid_nickname n ≡ true
    → held_by_other fd n s.clients ≡ true
    → is_taken_by_other fd n s ≡ true
held-taken fd n s o v held = elim (Bool-cases (is_taken_by_other fd n s)) [
  | inl taken ↦ taken
  | inr free ↦
      let (y, d, l, q) = held-some fd n s.clients o.sorted held in
      let same : y ≡ fd = free_nick fd n s y d o.sorted o.unique v free l (ground (arith, q)) (
        (text_eq_iff (to_irc_lower_case d.nickname) (to_irc_lower_case n)).0 (ground (arith, q))) in
      absurd (ground (arith, same, q))
]

taken-held :
    (fd : ℕ) (n : Text) (s : Server)
    → NicksOk s.clients
    → is_taken_by_other fd n s ≡ true
    → held_by_other fd n s.clients ≡ true
unfolding find_client_by_nick
taken-held fd n s o taken = elim (Option-cases (find_client_by_nick n s)) [
  | inl nobody ↦ absurd (ground (arith, taken, nobody))
  | inr (owner, found) ↦
      let (c, l, alive, same) =
        find_nick-some (to_irc_lower_case n) s.clients {x = owner} o.sorted
          (ground (arith, found)) in
      held-lookup fd n s.clients owner c l (
        ground (
          arith,
          taken,
          found,
          alive,
          (text_eq_iff (to_irc_lower_case c.nickname) (to_irc_lower_case n)).1 same,
        ))
]

-- In a server with the invariant, the search of NICK for another owner of a valid nickname finds out
-- whether there is one.
pub is_taken_by_other-held :
    (fd : ℕ) (n : Text) (s : Server)
    → NicksOk s.clients
    → is_valid_nickname n ≡ true
    → is_taken_by_other fd n s ≡ held_by_other fd n s.clients
is_taken_by_other-held fd n s o v = elim (Bool-cases (held_by_other fd n s.clients)) [
  | inl held ↦ held-taken fd n s o v held ∙ sym held
  | inr free ↦ elim (Bool-cases (is_taken_by_other fd n s)) [
    | inl taken ↦ taken ∙ sym (taken-held fd n s o taken)
    | inr untaken ↦ untaken ∙ sym free
  ]
]
