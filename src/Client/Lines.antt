-- ===== src/Client/Lines.antt =====
-- `extractLine`: which line it returns, what it leaves, and that it makes progress.
use irc.Base.{
  ℕ, zero, suc, ◌+◌, ◌-◌, ◌≤◌, ◌<◌, ◌≡◌, refl, Bool, true, not, [], ◌∷◌, ◌++◌, some, inl, inr,
  arith, length, length-drop, length-take_le, take, all, ◌==◌, Option-cases, take-length-append,
  drop-length-append,
}
use irc.Text.{Text, lf, find_byte, strip_cr}
use irc.Text.Search.{Free, find_byte-Found, find_byte-append}
use irc.Client.{Client, max_irc_message_size, is_forbidden, is_control, extract_line}

all-take : (p : ℕ → Bool) (n : ℕ) (s : Text) → all p s ≡ true → all p (take n s) ≡ true
all-take p zero s h = refl
all-take p (suc n) [] h = refl
all-take p (suc n) (c ∷ s) h = ground (arith, all-take p n s)

strip_cr-Free : (s : Text) → Free lf s → Free lf (strip_cr s)
unfolding strip_cr
strip_cr-Free s h = ground (arith, all-take (λ c. not (c == lf)) (length s - 1) s)

length-strip_cr_le : (s : Text) → length (strip_cr s) ≤ length s
unfolding strip_cr
length-strip_cr_le s = ground (arith, length-take_le (length s - 1) s)

no_control :
    (s : Text)
    → all (λ b. not (is_forbidden b)) s ≡ true
    → Free lf s
    → all (λ b. not (is_control b)) s ≡ true
no_control [] h k = refl
no_control (c ∷ s) h k = ground (arith, no_control s)

-- A line that is returned is shorter than a message on the wire, and holds no NUL, CR or LF.
pub extract_line_clean :
    (c : Client) {line : Text}
    → (extract_line c).0 ≡ some line
    → (length line < max_irc_message_size) × (all (λ b. not (is_control b)) line ≡ true)
unfolding extract_line
extract_line_clean c {line} h = elim (Option-cases (find_byte lf c.recv_buffer)) [
  | inl e ↦ ground arith
  | inr (pos, e) ↦
      let raw : Text = take pos c.recv_buffer in
      let found = find_byte-Found lf c.recv_buffer pos e in
      ground (
        arith,
        length-take_le pos c.recv_buffer,
        length-strip_cr_le raw,
        no_control (strip_cr raw),
        strip_cr-Free raw found.1,
      )
]

-- Each returned line takes at least its newline from the buffer.
pub extract_line_shrinks :
    (c : Client) {line : Text}
    → (extract_line c).0 ≡ some line
    → length (extract_line c).1.recv_buffer < length c.recv_buffer
unfolding extract_line
extract_line_shrinks c {line} h = elim (Option-cases (find_byte lf c.recv_buffer)) [
  | inl e ↦ ground arith
  | inr (pos, e) ↦
      ground (arith, find_byte-Found lf c.recv_buffer pos e, length-drop (pos + 1) c.recv_buffer)
]

-- A line that has arrived whole, with at most 511 bytes before its newline and no NUL or CR inside,
-- is returned without its CR, and the bytes behind it stay in the buffer.
pub extract_line_whole :
    (c : Client) (raw rest : Text)
    → c.recv_buffer ≡ raw ++ lf ∷ rest
    → Free lf raw
    → length raw < max_irc_message_size
    → all (λ b. not (is_forbidden b)) (strip_cr raw) ≡ true
    → extract_line c ≡ (some (strip_cr raw), record c { recv_buffer = rest })
unfolding extract_line
extract_line_whole c raw rest e f n a = ground (
  arith,
  find_byte-append lf raw rest f,
  take-length-append raw (lf ∷ rest),
  drop-length-append raw (lf ∷ rest) 1,
)
