-- ===== src/Bot/Exchange.antt =====
-- Lines between the bot and the server: what one side sends, the other takes as the same line.
use irc.Base.{
  ◌+◌, ◌-◌, ◌≤◌, ◌≡◌, refl, sym, ap, ◌∙◌, true, false, not, [], ◌∷◌, ◌++◌, append_assoc, some,
  arith, length, length-append, take, all, is_empty, get_or, take-length-append, drop-length-append,
  get_or-length-append,
}
use irc.Text.{Text, cr, lf, strip_cr}
use irc.Text.Search.{Free, find_byte-append}
use irc.Client.{Client, is_control, is_forbidden, is_valid_outbound_message}
use irc.Client
use irc.Client.Lines.{extract_line_whole}
use irc.Server.{text}
use irc.Bot.{Bot, extract_line, max_bot_message_size}
use irc.Bot.Sending.{Sendable}
use irc.Bot.Socket.{done}

-- A line with its CR.
abbrev with_cr : Text → Text
with_cr line = line ++ cr ∷ []

with_cr-Free : (line : Text) → all (λ b. not (is_control b)) line ≡ true → Free lf (with_cr line)
with_cr-Free [] h = refl
with_cr-Free (c ∷ line) h = ground (arith, with_cr-Free line)

allowed :
    (line : Text)
    → all (λ b. not (is_control b)) line ≡ true
    → all (λ b. not (is_forbidden b)) line ≡ true
allowed [] h = refl
allowed (c ∷ line) h = ground (arith, allowed line)

strip_cr-with_cr : (line : Text) → strip_cr (with_cr line) ≡ line
unfolding strip_cr
strip_cr-with_cr line =
    let size : length (with_cr line) ≡ length line + 1 = length-append line (cr ∷ []) in
    let body : length (with_cr line) - 1 ≡ length line = omega (arith, size) in
    let last : length (with_cr line) - 1 ≡ length line + 0 = omega (arith, size) in
    ground (
      arith,
      size,
      is_empty-with_cr line,
      ap (λ k. get_or (with_cr line) k 0) last ∙ get_or-length-append line (cr ∷ []) 0 0,
      ap (λ k. take k (with_cr line)) body ∙ take-length-append line (cr ∷ []),
    )
  where
    is_empty-with_cr : (s : Text) → is_empty (with_cr s) ≡ false
    is_empty-with_cr [] = refl
    is_empty-with_cr (c ∷ s) = refl

framed : (line rest : Text) → (line ++ text "\r\n") ++ rest ≡ with_cr line ++ lf ∷ rest
unfolding text
framed line rest =
    append_assoc line (cr ∷ lf ∷ []) rest ∙ sym (append_assoc line (cr ∷ []) (lf ∷ rest))

-- A line that the bot sends is taken by the server as it is, wherever the bytes behind it end.
pub extract_line-Sendable :
    (line rest : Text) (c : Client)
    → Sendable line
    → c.recv_buffer ≡ (line ++ text "\r\n") ++ rest
    → Client.extract_line c ≡ (some line, record c { recv_buffer = rest })
extract_line-Sendable line rest c s e =
    let same = strip_cr-with_cr line in
    let taken =
      extract_line_whole c (with_cr line) rest (e ∙ framed line rest) (with_cr-Free line s.clean)
        (omega (arith, length-append line (cr ∷ []), s.short)) (rw same (allowed line s.clean)) in
    rw same at taken

valid_parts :
    (line : Text)
    → is_valid_outbound_message (line ++ text "\r\n") ≡ true
    → (length line + 2 ≤ max_bot_message_size) × (all (λ b. not (is_control b)) line ≡ true)
unfolding is_valid_outbound_message text
valid_parts line v =
    let ending : Text = cr ∷ lf ∷ [] in
    let whole : Text = line ++ ending in
    let size : length whole ≡ length line + 2 = length-append line ending in
    let body : length whole - 2 ≡ length line = omega (arith, size) in
    ground (arith, size, ap (λ k. take k whole) body ∙ take-length-append line ending)

-- A message that the server sends, its line and CR LF, is taken by the bot as this line, wherever
-- the bytes behind it end.
pub extract_line-valid :
    (line rest : Text) (b : Bot)
    → is_valid_outbound_message (line ++ text "\r\n") ≡ true
    → b.receive_buffer ≡ (line ++ text "\r\n") ++ rest
    → extract_line b ≡ (done (some line), record b { receive_buffer = rest })
unfolding extract_line
extract_line-valid line rest b v e =
    let (short, clean) = valid_parts line v in
    let raw : Text = with_cr line in
    let buffer : b.receive_buffer ≡ raw ++ lf ∷ rest = e ∙ framed line rest in
    ground (
      arith,
      find_byte-append lf raw rest (with_cr-Free line clean),
      take-length-append raw (lf ∷ rest),
      drop-length-append raw (lf ∷ rest) 1,
      strip_cr-with_cr line,
      allowed line clean,
      length-append line (cr ∷ []),
    )
