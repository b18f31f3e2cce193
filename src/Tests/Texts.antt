-- ===== src/Tests/Texts.antt =====
-- Texts: splitting, parsing, and the lines and buffers of one client.
use irc.Base.{◌≡◌, ◌<◌, refl, true, not, [], ◌∷◌, ◌++◌, some, length, all, arith}
use irc.Text.{Text, codes, lf, strip_cr, find_byte}
use irc.Text.Casemap.{to_upper_case}
use irc.Text.Tokens.{words, is_space}
use irc.Parser.{parse}
use irc.Parser.RoundTrip.{wire, parse-wire}
use irc.Client.{extract_line, is_control}
use irc.Client.Outbound.{queue, sent, closes, output_run, Framed, output_run-stream}
use irc.Client.Lines.{extract_line_clean, extract_line_whole}
use irc.Tests.States.{alice, bob}

parse_join :
    parse (codes "join #a,#b key\r")
    ≡ record { prefix = []; command = codes "JOIN"; params = codes "#a,#b" ∷ codes "key" ∷ [] }
unfolding parse strip_cr irc.Text.find_text words to_upper_case
parse_join = refl

parse-wire_example :
    parse (wire (codes "bob") (codes "privmsg") (codes "#lobby" ∷ []) (codes "hello : there"))
    ≡ record {
      prefix = codes "bob";
      command = to_upper_case (codes "privmsg");
      params = (codes "#lobby" ∷ []) ++ codes "hello : there" ∷ [];
    }
unfolding is_space
parse-wire_example =
    parse-wire (codes "bob") (codes "privmsg") (codes "#lobby" ∷ []) (codes "hello : there") refl
      ((refl, refl), refl) (((refl, refl), refl), tt) refl

output_run-stream_example : Framed (
    output_run
      (queue (codes "A\r\n") ∷ sent 2 ∷ queue (codes "B\r\n") ∷ closes [] ∷ sent 4 ∷ [])
      ([], bob))
output_run-stream_example =
    output_run-stream
      (queue (codes "A\r\n") ∷ sent 2 ∷ queue (codes "B\r\n") ∷ closes [] ∷ sent 4 ∷ []) bob refl

extract_line_clean_example :
    (length (codes "PING :a") < 512) × (all (λ b. not (is_control b)) (codes "PING :a") ≡ true)
unfolding extract_line find_byte strip_cr
extract_line_clean_example = extract_line_clean alice {line = codes "PING :a"} refl

extract_line_whole_example : extract_line alice ≡ (
  some (strip_cr (codes "PING :a\r")),
  record alice { recv_buffer = codes "PRIVMSG bob :hi\r\n" },
)
unfolding strip_cr
extract_line_whole_example =
    extract_line_whole alice (codes "PING :a\r") (codes "PRIVMSG bob :hi\r\n") refl refl
      (ground arith) refl
