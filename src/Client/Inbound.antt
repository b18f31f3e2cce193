-- ===== src/Client/Inbound.antt =====
-- The receive buffer: its bounds, and which chunks it refuses.
use irc.Base.{
  ℕ, ◌+◌, ◌≤◌, ◌<◌, ◌≡◌, ◌↔◌, ◌≢◌, ◌⊎◌, true, none, some, ◌++◌, arith, length, length-append,
  length-take_le, take,
}
use irc.Text.{Text, lf, find_byte}
use irc.Client.{Client, max_recv_buffer, max_irc_message_size, append_to_recv_buffer}

-- The buffer is within its limit.
abbrev pub RecvBounded : Client → Type 0
RecvBounded c = length c.recv_buffer ≤ max_recv_buffer

-- A chunk, accepted or not, keeps the receive buffer within 8192 bytes.
pub append_to_recv_buffer-RecvBounded :
    (bytes : Text) (n : ℕ) (c : Client)
    → RecvBounded c
    → RecvBounded (append_to_recv_buffer (some bytes) n c).1
unfolding append_to_recv_buffer
append_to_recv_buffer-RecvBounded bytes n c h =
    ground (arith, length-append c.recv_buffer (take n bytes), length-take_le n bytes)

-- A chunk is accepted exactly if it fits in the buffer and the buffer, with the chunk, holds a
-- newline or less than one message of the maximal size.
pub append_to_recv_buffer_accepts :
    (bytes : Text) (n : ℕ) (c : Client)
    → ((append_to_recv_buffer (some bytes) n c).0 ≡ true) ↔ (
        (length c.recv_buffer + n ≤ max_recv_buffer)
        × ((find_byte lf (c.recv_buffer ++ take n bytes) ≢ none)
            ⊎ (length (c.recv_buffer ++ take n bytes) < max_irc_message_size)))
unfolding append_to_recv_buffer
append_to_recv_buffer_accepts bytes n c = ground (arith, length-append c.recv_buffer (take n bytes))
