-- ===== src/Bot/Returning.antt =====
-- src/bot/Bot.cpp: the loop over the chunks comes to its end.
use mathlib.Core.Path.{subst}
use irc.Base.{
  ℕ, zero, suc, ◌+◌, ◌-◌, ◌<◌, ◌≤◌, ◌≡◌, refl, sym, ap, ◌∙◌, Bool, true, false, not, ◌&&◌, ◌||◌,
  List, [], ◌∷◌, ◌++◌, none, some, inl, inr, arith, all, length, length-append, take, drop, ltb,
  leb, ◌==◌, append_assoc, append-nil, Option-cases,
}
use irc.Text.{Text, lf, find_byte, strip_cr}
use irc.Text.Search.{Free, find_byte-Found, find_byte-Free}
use irc.Client.{is_forbidden}
use irc.Bot.{
  Bot, max_bot_message_size, max_receive_buffer_size, extract_line, process_line, process_lines,
  Arrival, closed_by_server, recv_interrupted, recv_failed, received, receive_chunk,
  receive_messages,
}
use irc.Bot.Lines.{extract_line_idle, extract_line_shrinks}
use irc.Bot.Whole.{
  then-done, then-after, whole_lines, last_part, process_each, arrived, whole_lines-Free,
  whole_lines-append, extract_line_first, process_each-append,
}
use irc.Bot.Drain.{Rested, receive_chunk-Rested, receive_chunk-Read}
use irc.Bot.Socket.{Wire, Result, done}

-- A line that is not too long with its newline, and has no NUL, CR or LF but a CR at its end.
abbrev pub is_clean_line : Text → Bool
is_clean_line raw =
    leb (length raw + 1) max_bot_message_size && all (λ b. not (is_forbidden b)) (strip_cr raw)

-- All lines that end within the bytes are clean, and the rest is shorter than a message of the
-- maximal size.
unfoldable pub all_clean : Text → Text → Bool
all_clean open_line [] = ltb (length open_line) max_bot_message_size
all_clean open_line (b ∷ bs) = elim (b == lf) [
  | true ↦ is_clean_line open_line && all_clean [] bs
  | false ↦ all_clean (open_line ++ b ∷ []) bs
]

all_clean-Free :
    (o s : Text) → Free lf s → all_clean o s ≡ ltb (length (o ++ s)) max_bot_message_size
unfolding all_clean
all_clean-Free o [] h = ap (λ t. ltb (length t) max_bot_message_size) (sym (append-nil o))
all_clean-Free o (b ∷ bs) h =
    let other : (b == lf) ≡ false = ground arith in
    rw (other, all_clean)
      (all_clean-Free (o ++ b ∷ []) bs (ground arith)
        ∙ ap (λ t. ltb (length t) max_bot_message_size) (append_assoc o (b ∷ []) bs))

all_clean-line :
    (o raw t : Text)
    → Free lf raw
    → all_clean o (raw ++ lf ∷ t) ≡ (is_clean_line (o ++ raw) && all_clean [] t)
unfolding all_clean
all_clean-line o [] t h = ap (λ r. is_clean_line r && all_clean [] t) (sym (append-nil o))
all_clean-line o (b ∷ bs) t h =
    let other : (b == lf) ≡ false = ground arith in
    rw (other, all_clean)
      (all_clean-line (o ++ b ∷ []) bs t (ground arith)
        ∙ ap (λ r. is_clean_line r && all_clean [] t) (append_assoc o (b ∷ []) bs))

length-take : (n : ℕ) (xs : Text) → n ≤ length xs → length (take n xs) ≡ n
length-take zero xs h = refl
length-take (suc n) [] h = absurd (omega arith)
length-take (suc n) (x ∷ xs) h = omega (arith, length-take n xs (omega arith))

-- From clean bytes a clean line is taken, or none is there.
data Taken (b : Bot) : Type 0 where
  nothing : (extract_line b).0 ≡ done none → Taken b
  a_line :
      (m : Text)
      → (extract_line b).0 ≡ done (some m)
      → all_clean [] (extract_line b).1.receive_buffer ≡ true
      → Taken b

extract_line-Taken : (b : Bot) → all_clean [] b.receive_buffer ≡ true → Taken b
unfolding extract_line
extract_line-Taken b h = elim (Option-cases (find_byte lf b.receive_buffer)) [
  | inl e ↦
      let clean = all_clean-Free [] b.receive_buffer (find_byte-Free lf b.receive_buffer e) in
      nothing (ground (arith, e, h, clean))
  | inr (pos, e) ↦
      let found = find_byte-Found lf b.receive_buffer pos e in
      let raw = take pos b.receive_buffer in
      let rest = drop (suc pos) b.receive_buffer in
      let clean : (is_clean_line raw && all_clean [] rest) ≡ true =
        sym (all_clean-line [] raw rest found.1) ∙ ap (all_clean []) (sym found.2) ∙ h in
      let size : length raw ≡ pos = length-take pos b.receive_buffer (omega (arith, found.0)) in
      a_line (strip_cr raw) (ground (arith, e, clean, size)) (ground (arith, e, clean, size))
]

process_lines_done :
    (fuel : ℕ) (bot : Bot) (w : Wire) {v : Wire}
    → length bot.receive_buffer < fuel
    → all_clean [] bot.receive_buffer ≡ true
    → process_each bot.channel (whole_lines [] bot.receive_buffer) w ≡ (done tt, v)
    → (b : Bot) × (process_lines fuel bot w ≡ (done b, v))
unfolding process_lines process_each
process_lines_done zero bot w h clean e = absurd (omega arith)
process_lines_done (suc fuel) bot w {v} h clean e = elim (extract_line-Taken bot clean) [
  | nothing i ↦
      let (same, free, short) = extract_line_idle bot i in
      let (no_line, part) = whole_lines-Free [] bot.receive_buffer free in
      let unmoved : w ≡ v =
        ap (λ (p : Result (Unit {0}) × Wire). p.1)
          (ap (λ ls. process_each bot.channel ls w) (sym no_line) ∙ e) in
      (bot, rw (i, same, process_lines) (ap (λ (u : Wire). (done bot, u)) unmoved))
  | a_line m i cleaner ↦
      let left = (extract_line bot).1 in
      let (line, part, same) = extract_line_first bot m i in
      let reactions : process_each left.channel (m ∷ whole_lines [] left.receive_buffer) w
          ≡ (done tt, v) =
        ap (λ c. process_each c (m ∷ whole_lines [] left.receive_buffer) w) same
        ∙ ap (λ ls. process_each bot.channel ls w) (sym line)
        ∙ e in
      let (a, first, others) =
        then-done (process_line left.channel m)
          (λ _. process_each left.channel (whole_lines [] left.receive_buffer)) w reactions in
      let (b, r) =
        process_lines_done fuel left (process_line left.channel m w).1
          (omega (arith, h, extract_line_shrinks bot {line = m} i)) cleaner others in
      (
        b,
        rw (i, process_lines)
            (then-after (process_line left.channel m) (λ _. process_lines fuel left) w first ∙ r),
      )
]

-- The stream ends by the server's closing, no chunk is more than the buffer has room for, and all
-- lines are clean, the one begun behind each chunk too. `carried` is what the buffer holds.
unfoldable pub Fits : Text → List Arrival → Type 0
Fits carried [] = ⊥
Fits carried (closed_by_server ∷ more) = Unit
Fits carried (recv_interrupted ∷ more) = Fits carried more
Fits carried (recv_failed why ∷ more) = ⊥
Fits carried (received chunk ∷ more) =
    (length (carried ++ chunk) ≤ max_receive_buffer_size)
    × (all_clean [] (carried ++ chunk) ≡ true)
    × Fits (last_part [] (carried ++ chunk)) more

-- The lines that the next bytes complete, from the buffer or from all bytes so far.
carry :
    (mid : Bot) (s t : Text)
    → Free lf mid.receive_buffer
    → mid.receive_buffer ≡ last_part [] s
    → whole_lines [] (mid.receive_buffer ++ t) ≡ whole_lines (last_part [] s) t
carry mid s t free e =
    let (no_line, part) = whole_lines-Free [] mid.receive_buffer free in
    (whole_lines-append [] mid.receive_buffer t).0
    ∙ ap (λ ls. ls ++ whole_lines (last_part [] mid.receive_buffer) t) no_line
    ∙ ap (λ o. whole_lines o t) (part ∙ e)

receive_chunk_done :
    (chunk : Text) (bot : Bot) (w : Wire) {v : Wire}
    → length (bot.receive_buffer ++ chunk) ≤ max_receive_buffer_size
    → all_clean [] (bot.receive_buffer ++ chunk) ≡ true
    → process_each bot.channel (whole_lines [] (bot.receive_buffer ++ chunk)) w ≡ (done tt, v)
    → (b : Bot) × (receive_chunk chunk bot w ≡ (done b, v))
unfolding receive_chunk
receive_chunk_done chunk bot w {v} h clean e =
    let grown : Bot = record bot { receive_buffer = bot.receive_buffer ++ chunk } in
    let size : length bot.receive_buffer + length chunk ≤ max_receive_buffer_size =
      omega (arith, h, length-append bot.receive_buffer chunk) in
    let fits : (ltb max_receive_buffer_size (length bot.receive_buffer)
          || ltb (max_receive_buffer_size - length bot.receive_buffer) (length chunk))
        ≡ false =
      ground (arith, size) in
    let (b, r) =
      process_lines_done (suc (length grown.receive_buffer)) grown w (omega arith) clean e in
    (b, rw (fits, receive_chunk) r)

-- If the stream fits into the buffer, with clean lines and the server's closing at its end, and the
-- bot, with no complete line in its buffer, can react to each of the lines that are completed, one
-- after the other, then its loop over the chunks ends, having done just that.
pub receive_messages_done :
    (arrivals : List Arrival) (bot : Bot) (w : Wire) {v : Wire}
    → Rested bot
    → Fits bot.receive_buffer arrivals
    → process_each bot.channel (whole_lines [] (bot.receive_buffer ++ arrived arrivals)) w
      ≡ (done tt, v)
    → (b : Bot) × (receive_messages arrivals bot w ≡ (done b, v))
unfolding receive_messages arrived Fits process_each
receive_messages_done [] bot w r f e = absurd f
receive_messages_done (closed_by_server ∷ more) bot w {v} r f e =
    let unmoved : w ≡ v =
      ap (λ (p : Result (Unit {0}) × Wire). p.1)
        (ap (λ ls. process_each bot.channel ls w)
            (sym (whole_lines-Free [] bot.receive_buffer r.0).0
              ∙ ap (whole_lines []) (sym (append-nil bot.receive_buffer)))
          ∙ e) in
    (bot, ap (λ (u : Wire). (done bot, u)) unmoved)
receive_messages_done (recv_interrupted ∷ more) bot w r f e = receive_messages_done more bot w r f e
receive_messages_done (recv_failed why ∷ more) bot w r f e = absurd f
receive_messages_done (received chunk ∷ more) bot w {v} r (size, clean, fits) e =
    let now : Text = bot.receive_buffer ++ chunk in
    let later : List Text = whole_lines (last_part [] now) (arrived more) in
    let split : process_each bot.channel (whole_lines [] now ++ later) w ≡ (done tt, v) =
      ap (λ ls. process_each bot.channel ls w)
        (sym (whole_lines-append [] now (arrived more)).0
          ∙ ap (whole_lines []) (append_assoc bot.receive_buffer chunk (arrived more)))
      ∙ e in
    let (a, first, others) =
      then-done (process_each bot.channel (whole_lines [] now))
        (λ _. process_each bot.channel later) w
        (sym (process_each-append bot.channel (whole_lines [] now) later w) ∙ split) in
    let (mid, got) = receive_chunk_done chunk bot w size clean first in
    let reading = receive_chunk-Read chunk bot w got in
    let rested : Rested mid =
      (let h = receive_chunk-Rested chunk bot w in
        rw (ap (λ (p : Result Bot × Wire). p.0) got) at h) in
    let after : Wire = (process_each bot.channel (whole_lines [] now) w).1 in
    let rest = carry mid now (arrived more) rested.0 reading.left in
    let (b, end) =
      receive_messages_done more mid after rested (subst (λ t. Fits t more) (sym reading.left) fits)
        (ap (λ c. process_each c (whole_lines [] (mid.receive_buffer ++ arrived more)) after)
            reading.channel_same
          ∙ ap (λ ls. process_each bot.channel ls after) rest
          ∙ others) in
    (b, then-after (receive_chunk chunk bot) (receive_messages more) w got ∙ end)
