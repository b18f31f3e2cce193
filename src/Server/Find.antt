-- ===== src/Server/Find.antt =====
-- What the lookups by nickname find.
use irc.Base.{
  ℕ, suc, ◌≤◌, ◌≡◌, ◌≢◌, refl, false, not, ◌&&◌, [], ◌∷◌, none, some, arith, Bool-cases, inl, inr,
}
use irc.Text.{Text, text_eq, text_eq_iff, int_key}
use irc.Text.Casemap.{to_irc_lower_case}
use irc.Map.{Map, lookup}
use irc.Client.{Client}
use irc.Server.{Server, find_nick, find_client_by_nick}

pub find_nick-lookup :
    (n : Text) (m : Map ℕ Client) {x : ℕ} → find_nick n m ≡ some x → lookup x m ≢ none
unfolding find_nick lookup
find_nick-lookup n [] e = cc
find_nick-lookup n ((fd, c) ∷ m) {x} e = ground (arith, find_nick-lookup n m {x = x})

-- The nickname belongs to a client that the server holds.
pub find_client_by_nick-lookup :
    (n : Text) (s : Server) {x : ℕ} → find_client_by_nick n s ≡ some x → lookup x s.clients ≢ none
unfolding find_client_by_nick
find_client_by_nick-lookup n s {x} e =
    ground (arith, find_nick-lookup (to_irc_lower_case n) s.clients {x = x})

-- A search by a nickname in lower case that fails has met no client that is alive and has the nickname.
pub find_nick-none :
    (n : Text) (m : Map ℕ Client) (y : ℕ) (d : Client)
    → find_nick n m ≡ none
    → lookup y m ≡ some d
    → d.dead ≡ false
    → to_irc_lower_case d.nickname ≢ n
unfolding find_nick lookup
find_nick-none n [] y d e l a = cc
find_nick-none n ((fd, c) ∷ m) y d e l a =
    ground (arith, find_nick-none n m y d, text_eq_iff (to_irc_lower_case c.nickname) n)

-- The descriptors rise along the map.
abbrev pub Above : ℕ → Map ℕ Client → Type 0
Above b [] = Unit
Above b ((k, c) ∷ m) = (suc b ≤ k) × Above b m

abbrev pub Sorted : Map ℕ Client → Type 0
Sorted [] = Unit
Sorted ((k, c) ∷ m) = Above k m × Sorted m

pub lookup_below : (x b : ℕ) (m : Map ℕ Client) → Above b m → x ≤ b → lookup x m ≡ none
unfolding lookup
lookup_below x b [] a h = refl
lookup_below x b ((k, c) ∷ m) a h = ground (arith, lookup_below x b m a.1)

-- In a map in the order of its descriptors, a search that succeeds names a client of the map that
-- is alive and whose nickname, in lower case, is the wanted one.
pub find_nick-some :
    (n : Text) (m : Map ℕ Client) {x : ℕ}
    → Sorted m
    → find_nick n m ≡ some x
    → (c : Client) × (lookup x m ≡ some c) × (c.dead ≡ false) × (to_irc_lower_case c.nickname ≡ n)
unfolding find_nick lookup
find_nick-some n [] s e = cc
find_nick-some n ((fd, c) ∷ m) {x} s e =
    elim (Bool-cases (not c.dead && text_eq (to_irc_lower_case c.nickname) n)) [
      | inl hit ↦ (
        c,
        ground arith,
        ground arith,
        (text_eq_iff (to_irc_lower_case c.nickname) n).0 (ground arith),
      )
      | inr miss ↦
          let (d, l, a, q) = find_nick-some n m {x = x} s.1 (ground arith) in
          (d, ground (arith, l, lookup_below x fd m s.0), a, q)
    ]
