-- ===== src/Bot/Whole.antt =====
-- src/bot/Bot.cpp: the lines that a sequence of bytes completes, apart from the bot's buffer, and
-- what the bot does with them.
use irc.Base.{
  ◌≡◌, refl, sym, ap, ◌∙◌, ◌⊎◌, true, false, List, [], ◌∷◌, ◌++◌, some, arith, take, ◌==◌,
  append_assoc, append-nil, Option-cases, Bool-cases, inl, inr,
}
use irc.Text.{Text, lf, find_byte, strip_cr}
use irc.Text.Search.{Free, find_byte-Found}
use irc.Bot.{
  Bot, extract_line, process_line, Arrival, closed_by_server, recv_interrupted, recv_failed,
  received,
}
use irc.Bot.Socket.{Wire, Result, done, raised, blocked, Io, pure, ◌>>=◌, ◌>>◌}

pub Result-cases :
    {A : Type 0} (r : Result A)
    → ((a : A) × (r ≡ done a)) ⊎ ((why : Text) × (r ≡ raised why)) ⊎ (r ≡ blocked)
Result-cases (done a) = inl (a, refl)
Result-cases (raised why) = inr (inl (why, refl))
Result-cases blocked = inr (inr refl)

then-same :
    {A B : Type 0} (m : Io A) (f g : A → Io B) (w : Wire)
    → ((a : A) (v : Wire) → f a v ≡ g a v)
    → (m >>= f) w ≡ (m >>= g) w
then-same m f g w h = elim (Result-cases (m w).0) [
  | inl (a, e) ↦ rw (e, ◌>>=◌) (h a (m w).1)
  | inr (inl (why, e)) ↦ rw (e, ◌>>=◌) refl
  | inr (inr e) ↦ rw (e, ◌>>=◌) refl
]

then-then_at :
    {A B C : Type 0} (r : Result A) (v : Wire) (f : A → Io B) (g : B → Io C) (w : Wire)
    → ((λ (u : Wire). (r, v)) >>= f >>= g) w ≡ ((λ (u : Wire). (r, v)) >>= λ a. f a >>= g) w
then-then_at (done a) v f g w = refl
then-then_at (raised why) v f g w = refl
then-then_at blocked v f g w = refl

then-then :
    {A B C : Type 0} (m : Io A) (f : A → Io B) (g : B → Io C) (w : Wire)
    → (m >>= f >>= g) w ≡ (m >>= λ a. f a >>= g) w
then-then m f g w = then-then_at (m w).0 (m w).1 f g w

pub then-after :
    {A B : Type 0} (m : Io A) (f : A → Io B) (w : Wire) {a : A} {v : Wire}
    → m w ≡ (done a, v)
    → (m >>= f) w ≡ f a v
then-after {A} m f w h = ap (λ (p : Result A × Wire). ((λ (u : Wire). p) >>= f) w) h

-- An action that has returned, in front of another: both have.
pub then-done :
    {A B : Type 0} (m : Io A) (f : A → Io B) (w : Wire) {b : B} {v : Wire}
    → (m >>= f) w ≡ (done b, v)
    → (a : A) × (m w ≡ (done a, (m w).1)) × (f a (m w).1 ≡ (done b, v))
then-done {A} m f w {b} {v} h = elim (Result-cases (m w).0) [
  | inl (a, e) ↦ (a, ap (λ (r : Result A). (r, (m w).1)) e, rw (e, ◌>>=◌) at h)
  | inr (inl (why, e)) ↦ absurd (let k = rw (e, ◌>>=◌) at h in cc)
  | inr (inr e) ↦ absurd (let k = rw (e, ◌>>=◌) at h in cc)
]

-- The lines that end within the bytes; the first begins with `open_line`.
unfoldable pub whole_lines : Text → Text → List Text
whole_lines open_line [] = []
whole_lines open_line (b ∷ bs) = elim (b == lf) [
  | true ↦ strip_cr open_line ∷ whole_lines [] bs
  | false ↦ whole_lines (open_line ++ b ∷ []) bs
]

-- What stands behind the last newline.
unfoldable pub last_part : Text → Text → Text
last_part open_line [] = open_line
last_part open_line (b ∷ bs) = elim (b == lf) [
  | true ↦ last_part [] bs
  | false ↦ last_part (open_line ++ b ∷ []) bs
]

-- The reactions of the bot, one after the other.
unfoldable pub process_each : Text → List Text → Io (Unit {0})
process_each channel [] = pure tt
process_each channel (m ∷ ms) = process_line channel m >> process_each channel ms

-- The bytes that arrive before the stream ends.
unfoldable pub arrived : List Arrival → Text
arrived [] = []
arrived (closed_by_server ∷ more) = []
arrived (recv_interrupted ∷ more) = arrived more
arrived (recv_failed why ∷ more) = []
arrived (received chunk ∷ more) = chunk ++ arrived more

pub whole_lines-Free : (o s : Text) → Free lf s → (whole_lines o s ≡ []) × (last_part o s ≡ o ++ s)
unfolding whole_lines last_part
whole_lines-Free o [] h = (refl, sym (append-nil o))
whole_lines-Free o (b ∷ bs) h =
    let other : (b == lf) ≡ false = ground arith in
    let (none_whole, rest) = whole_lines-Free (o ++ b ∷ []) bs (ground arith) in
    rw (other, whole_lines, last_part) (none_whole, rest ∙ append_assoc o (b ∷ []) bs)

pub whole_lines-append :
    (o s t : Text)
    → (whole_lines o (s ++ t) ≡ whole_lines o s ++ whole_lines (last_part o s) t)
      × (last_part o (s ++ t) ≡ last_part (last_part o s) t)
unfolding whole_lines last_part
whole_lines-append o [] t = (refl, refl)
whole_lines-append o (b ∷ bs) t = elim (Bool-cases (b == lf)) [
  | inl newline ↦
      let (lines, rest) = whole_lines-append [] bs t in
      rw (newline, whole_lines, last_part) (ap (λ ls. strip_cr o ∷ ls) lines, rest)
  | inr other ↦
      let (lines, rest) = whole_lines-append (o ++ b ∷ []) bs t in
      rw (other, whole_lines, last_part) (lines, rest)
]

-- A text up to its first newline.
pub whole_lines-line :
    (raw t : Text)
    → Free lf raw
    → (whole_lines [] (raw ++ lf ∷ t) ≡ strip_cr raw ∷ whole_lines [] t)
      × (last_part [] (raw ++ lf ∷ t) ≡ last_part [] t)
unfolding whole_lines last_part
whole_lines-line raw t h =
    let both = whole_lines-append [] raw (lf ∷ t) in
    let plain = whole_lines-Free [] raw h in
    (
      both.0
          ∙ ap (λ ls. ls ++ (strip_cr (last_part [] raw) ∷ whole_lines [] t)) plain.0
          ∙ ap (λ o. strip_cr o ∷ whole_lines [] t) plain.1,
      both.1,
    )

extract_line_split :
    (b : Bot) (m : Text)
    → (extract_line b).0 ≡ done (some m)
    → (raw : Text) × Free lf raw
      × (b.receive_buffer ≡ raw ++ lf ∷ (extract_line b).1.receive_buffer)
      × (m ≡ strip_cr raw)
      × ((extract_line b).1.channel ≡ b.channel)
unfolding extract_line
extract_line_split b m h = elim (Option-cases (find_byte lf b.receive_buffer)) [
  | inl e ↦ absurd (ground arith)
  | inr (pos, e) ↦
      let found = find_byte-Found lf b.receive_buffer pos e in
      (take pos b.receive_buffer, found.1, ground arith, ground arith, ground arith)
]

-- The line that the bot takes is the first one of its buffer.
pub extract_line_first :
    (b : Bot) (m : Text)
    → (extract_line b).0 ≡ done (some m)
    → (whole_lines [] b.receive_buffer ≡ m ∷ whole_lines [] (extract_line b).1.receive_buffer)
      × (last_part [] b.receive_buffer ≡ last_part [] (extract_line b).1.receive_buffer)
      × ((extract_line b).1.channel ≡ b.channel)
extract_line_first b m h =
    let (raw, free, split, same, kept) = extract_line_split b m h in
    let line = whole_lines-line raw (extract_line b).1.receive_buffer free in
    (
      ap (whole_lines []) split
          ∙ line.0
          ∙ ap (λ n. n ∷ whole_lines [] (extract_line b).1.receive_buffer) (sym same),
      ap (last_part []) split ∙ line.1,
      kept,
    )

pub process_each-first :
    (channel m : Text) (ms : List Text) (w : Wire) {v : Wire}
    → process_line channel m w ≡ (done tt, v)
    → process_each channel (m ∷ ms) w ≡ process_each channel ms v
unfolding process_each
process_each-first channel m ms w h =
    then-after (process_line channel m) (λ _. process_each channel ms) w h

pub process_each-append :
    (channel : Text) (xs ys : List Text) (w : Wire)
    → process_each channel (xs ++ ys) w ≡ (process_each channel xs >> process_each channel ys) w
unfolding process_each
process_each-append channel [] ys w = refl
process_each-append channel (x ∷ xs) ys w =
    then-same (process_line channel x) (λ _. process_each channel (xs ++ ys))
      (λ _. process_each channel xs >> process_each channel ys) w
      (λ _ v. process_each-append channel xs ys v)
    ∙ sym (
        then-then (process_line channel x) (λ _. process_each channel xs)
          (λ _. process_each channel ys) w)
