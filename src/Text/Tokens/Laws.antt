-- ===== src/Text/Tokens/Laws.antt =====
-- What the tokens look like, and that joined tokens are split again.
use irc.Base.{
  ℕ, ◌≡◌, refl, ap, ◌∙◌, Bool, true, false, ◌&&◌, not, List, [], ◌∷◌, ◌++◌, append_assoc,
  append-nil, arith, is_empty, select, all, All, ◌==◌,
}
use irc.Text.Order.{Text}
use irc.Text.Tokens.{is_space, words_from, words, getline_from, split_string}

-- A token: not empty, and free of separators.
abbrev pub IsToken : (ℕ → Bool) → Text → Type 0
IsToken sep t = (is_empty t ≡ false) × (all (λ c. not (sep c)) t ≡ true)

pub all-append : (p : ℕ → Bool) (s t : Text) → all p (s ++ t) ≡ (all p s && all p t)
all-append p [] t = refl
all-append p (c ∷ s) t = ground (arith, all-append p s t)

is_empty-concat : (s : Text) (c : ℕ) → is_empty (s ++ c ∷ []) ≡ false
is_empty-concat [] c = refl
is_empty-concat (x ∷ s) c = refl

words_from-IsToken :
    (word cs : Text)
    → all (λ c. not (is_space c)) word ≡ true
    → All (IsToken is_space) (words_from word cs)
unfolding words_from
words_from-IsToken [] [] h = tt
words_from-IsToken (w ∷ ws) [] h = ((refl, h), tt)
words_from-IsToken [] (c ∷ cs) h =
    ground (arith, words_from-IsToken [] cs refl, words_from-IsToken (c ∷ []) cs)
words_from-IsToken (w ∷ ws) (c ∷ cs) h = ground (
  arith,
  words_from-IsToken [] cs refl,
  words_from-IsToken (w ∷ ws ++ c ∷ []) cs,
  all-append (λ x. not (is_space x)) (w ∷ ws) (c ∷ []),
)

-- Every word that `stream >> word` reads is a token: not empty, and free of white space.
pub words-IsToken : (s : Text) → All (IsToken is_space) (words s)
unfolding words
words-IsToken s = words_from-IsToken [] s refl

-- A token is read up to the space behind it.
words_from-token :
    (word t rest : Text) (c : ℕ)
    → all (λ x. not (is_space x)) t ≡ true
    → is_space c ≡ true
    → is_empty (word ++ t) ≡ false
    → words_from word (t ++ c ∷ rest) ≡ (word ++ t) ∷ words_from [] rest
unfolding words_from
words_from-token [] [] rest c h e n = cc
words_from-token (w ∷ ws) [] rest c h e n = ground (arith, append-nil (w ∷ ws))
words_from-token word (x ∷ t) rest c h e n =
    ground (arith, words_from-token (word ++ x ∷ []) t rest c, append_assoc word (x ∷ []) t)

words_from_last :
    (word t : Text)
    → all (λ x. not (is_space x)) t ≡ true
    → is_empty (word ++ t) ≡ false
    → words_from word t ≡ (word ++ t) ∷ []
unfolding words_from
words_from_last [] [] h n = cc
words_from_last (w ∷ ws) [] h n = ground (arith, append-nil (w ∷ ws))
words_from_last word (x ∷ t) h n =
    ground (arith, words_from_last (word ++ x ∷ []) t, append_assoc word (x ∷ []) t)

-- Tokens with one space between each two.
abbrev pub unwords : Text → List Text → Text
unwords t [] = t
unwords t (u ∷ us) = t ++ b' ' ∷ unwords u us

-- The words of tokens (not empty, free of white space) that are joined by spaces are the tokens.
pub words-unwords :
    (t : Text) (ts : List Text) → All (IsToken is_space) (t ∷ ts) → words (unwords t ts) ≡ t ∷ ts
unfolding words
words-unwords t [] h = words_from_last [] t h.0.1 h.0.0
words-unwords t (u ∷ us) h =
    words_from-token [] t (unwords u us) b' ' h.0.1 (unfold is_space in refl) h.0.0
    ∙ ap (◌∷◌ t) (words-unwords u us h.1)

split_from-IsToken :
    (d : ℕ) (token s : Text)
    → all (λ c. not (c == d)) token ≡ true
    → All (IsToken (λ c. c == d)) (select (λ t. not (is_empty t)) (getline_from d token s))
unfolding getline_from
split_from-IsToken d [] [] h = tt
split_from-IsToken d (x ∷ t) [] h = ((refl, h), tt)
split_from-IsToken d [] (c ∷ cs) h =
    ground (arith, split_from-IsToken d [] cs refl, split_from-IsToken d (c ∷ []) cs)
split_from-IsToken d (x ∷ t) (c ∷ cs) h = ground (
  arith,
  split_from-IsToken d [] cs refl,
  split_from-IsToken d (x ∷ t ++ c ∷ []) cs,
  all-append (λ y. not (y == d)) (x ∷ t) (c ∷ []),
)

-- Every piece that `splitString` returns is not empty and free of the delimiter.
-- No token that `splitString` returns is empty or holds the delimiter.
pub split_string-IsToken : (s : Text) (d : ℕ) → All (IsToken (λ c. c == d)) (split_string s d)
unfolding split_string
split_string-IsToken s d = split_from-IsToken d [] s refl
