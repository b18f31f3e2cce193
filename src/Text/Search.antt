-- ===== src/Text/Search.antt =====
-- What a found position says of the text.
use irc.Base.{
  ℕ, zero, suc, ◌<◌, ◌≡◌, refl, true, not, [], ◌∷◌, ◌++◌, none, some, arith, length, all, take,
  drop, ◌==◌,
}
use irc.Text.{Text, find_byte}

-- The byte stands nowhere in the text.
abbrev pub Free : ℕ → Text → Type 0
Free b s = all (λ c. not (c == b)) s ≡ true

-- Where `find` sees a byte first: the text splits there, and the first part is free of it.
abbrev pub Found : ℕ → Text → ℕ → Type 0
Found b s i = (i < length s) × Free b (take i s) × (s ≡ take i s ++ b ∷ drop (suc i) s)

pub find_byte-Found : (b : ℕ) (s : Text) (i : ℕ) → find_byte b s ≡ some i → Found b s i
unfolding find_byte
find_byte-Found b [] i h = cc
find_byte-Found b (c ∷ cs) zero h = ground arith
find_byte-Found b (c ∷ cs) (suc i) h = ground (arith, find_byte-Found b cs i)

pub find_byte-append : (b : ℕ) (s t : Text) → Free b s → find_byte b (s ++ b ∷ t) ≡ some (length s)
unfolding find_byte
find_byte-append b [] t h = ground arith
find_byte-append b (c ∷ cs) t h = ground (arith, find_byte-append b cs t)

pub find_byte-Free : (b : ℕ) (s : Text) → find_byte b s ≡ none → Free b s
unfolding find_byte
find_byte-Free b [] h = refl
find_byte-Free b (c ∷ cs) h = ground (arith, find_byte-Free b cs)
