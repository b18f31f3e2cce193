-- ===== src/Client.antt =====
-- src/client/Client.cpp: one connection, with its two buffers, its registration and the two
-- stages of its end. Messages to the error log and the descriptor's `close` are left out.
pub mod Outbound
pub mod Inbound
pub mod Lines
pub mod Evolves
use irc.Base.{
  ℕ, suc, ◌+◌, ◌-◌, Bool, true, false, not, ◌&&◌, ◌||◌, List, [], ◌∷◌, ◌++◌, Option, none, some,
  length, is_empty, get_or, take, drop, all, ltb, leb, ◌==◌, if◌then◌else◌,
}
use irc.Text.{Text, codes, cr, lf, find_byte, strip_cr}

abbrev pub max_send_buffer : ℕ
max_send_buffer = 65536

abbrev pub max_recv_buffer : ℕ
max_recv_buffer = 8192

abbrev pub max_irc_message_size : ℕ
max_irc_message_size = 512

-- `UINT_MAX`, for the 32 bits of an `unsigned int`.
abbrev pub uint_max : ℕ
uint_max = 4294967295

pub record Client : Type 0 where
  pub fd : ℕ
  pub ip : Text
  pub recv_buffer : Text
  pub send_buffer : Text
  pub nickname : Text
  pub username : Text
  pub pass_ok : Bool
  pub nick_set : Bool
  pub user_set : Bool
  pub failed_pass_attempts : ℕ
  pub dead : Bool
  pub closing : Bool
  pub dead_reason : Text

-- The constructor; `none` is its exception. A descriptor is a number, so never negative.
unfoldable pub new_client : ℕ → Text → Option Client
new_client fd ip =
    if is_empty ip
    then none
    else some (record {
      fd = fd;
      ip = ip;
      recv_buffer = [];
      send_buffer = [];
      nickname = [];
      username = [];
      pass_ok = false;
      nick_set = false;
      user_set = false;
      failed_pass_attempts = 0;
      dead = false;
      closing = false;
      dead_reason = [];
    })

-- A byte that no message may hold before its final CR LF.
abbrev pub is_control : ℕ → Bool
is_control b = b == 0 || b == cr || b == lf

unfoldable pub is_valid_outbound_message : Text → Bool
is_valid_outbound_message m =
    let size = length m in
    if is_empty m || ltb max_irc_message_size size
    then false
    else if ltb size 2 || not (get_or m (size - 2) 0 == cr) || not (get_or m (size - 1) 0 == lf)
    then false
    else all (λ b. not (is_control b)) (take (size - 2) m)

unfoldable pub mark_dead : Text → Client → Client
mark_dead reason c = if c.dead then c else record c {
  dead = true;
  dead_reason = if is_empty c.dead_reason then reason else c.dead_reason;
}

unfoldable pub mark_closing : Text → Client → Client
mark_closing reason c =
    if c.dead || c.closing then c else record c { closing = true; dead_reason = reason }

unfoldable pub send_message : Text → Client → Client
send_message message c =
    if c.dead || c.closing
    then c
    else if not (is_valid_outbound_message message)
    then c
    else if ltb max_send_buffer (length c.send_buffer)
        || ltb (max_send_buffer - length c.send_buffer) (length message)
    then mark_dead (codes "send buffer overflow (slow or stuck client)") c
    else record c { send_buffer = c.send_buffer ++ message }

abbrev pub set_pass_ok : Bool → Client → Client
set_pass_ok value c = record c { pass_ok = value }

abbrev pub set_nickname : Text → Client → Client
set_nickname nickname c = record c { nickname = nickname }

abbrev pub set_nick_set : Bool → Client → Client
set_nick_set value c = record c { nick_set = value }

abbrev pub set_username : Text → Client → Client
set_username username c = record c { username = username }

abbrev pub set_user_set : Bool → Client → Client
set_user_set value c = record c { user_set = value }

unfoldable pub is_registered : Client → Bool
is_registered c = c.pass_ok && c.nick_set && c.user_set

unfoldable pub record_failed_pass_attempt : Client → Client
record_failed_pass_attempt c =
    if ltb c.failed_pass_attempts uint_max
    then record c { failed_pass_attempts = c.failed_pass_attempts + 1 }
    else c

-- `data` is a pointer, `none` if it is NULL.
unfoldable pub append_to_recv_buffer : Option Text → ℕ → Client → Bool × Client
append_to_recv_buffer none n c = (n == 0, c)
append_to_recv_buffer (some bytes) n c =
    let buffer = c.recv_buffer ++ take n bytes in
    if ltb max_recv_buffer (length c.recv_buffer) || ltb (max_recv_buffer - length c.recv_buffer) n
    then (false, c)
    else (
      elim (find_byte lf buffer) [
        | none ↦ not (leb max_irc_message_size (length buffer))
        | some i ↦ true
      ],
      record c { recv_buffer = buffer },
    )

-- The loop over the bytes of a line.
abbrev pub is_forbidden : ℕ → Bool
is_forbidden b = b == 0 || b == cr

abbrev pub accept_line : Text → Client → Option Text × Client
accept_line line c =
    if all (λ b. not (is_forbidden b)) line
    then (some line, c)
    else (none, mark_dead (codes "forbidden control byte in IRC message") c)

-- `none` is the result `false`.
unfoldable pub extract_line : Client → Option Text × Client
extract_line c = elim (find_byte lf c.recv_buffer) [
  | none ↦ (none, c)
  | some pos ↦
      let rest = record c { recv_buffer = drop (pos + 1) c.recv_buffer } in
      if ltb max_irc_message_size (pos + 1)
      then (none, mark_dead (codes "IRC message exceeds 512-byte limit") rest)
      else accept_line (strip_cr (take pos c.recv_buffer)) rest
]

abbrev pub has_pending_output : Client → Bool
has_pending_output c = not (is_empty c.send_buffer)

unfoldable pub consume_send_buffer : ℕ → Client → Client
consume_send_buffer bytes_sent c =
    if ltb (length c.send_buffer) bytes_sent
    then mark_dead (codes "invalid send-buffer accounting") c
    else if bytes_sent == length c.send_buffer
    then record c { send_buffer = [] }
    else record c { send_buffer = drop bytes_sent c.send_buffer }
