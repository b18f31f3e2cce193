-- ===== src/Loop/Farewell.antt =====
-- A client that is closing leaves the server when its last output has been sent.
use irc.Base.{
  ℕ, zero, suc, ◌-◌, ◌≤◌, ◌≡◌, refl, ap, ◌∙◌, true, false, not, List, [], ◌∷◌, none, some, arith,
  length, length-drop, is_empty, leb, if◌then◌else◌, Bool-cases, inl, inr,
}
use irc.Text.{Text, int_key, text_key}
use irc.Map.{lookup}
use irc.Map.Laws.{has, lookup-modify}
use irc.Client.{Client, consume_send_buffer}
use irc.Server.{Server, update_client}
use irc.Policy.Invariant.All.{Inv}
use irc.Loop.{Sent, took, after_send, handle_client_write, reap_dead_clients}
use irc.Loop.Invariant.{handle_client_write-Inv}
use irc.Loop.Removal.{is_finished, has-reap_dead_clients}

abbrev pub pending : ℕ → Server → ℕ
pending fd s = elim (lookup fd s.clients) [ none ↦ 0 | some c ↦ length c.send_buffer ]

-- What `send` takes of `offered` bytes if it is ready for `n` more than one.
abbrev pub taken : ℕ → ℕ → ℕ
taken n offered = if leb (suc n) offered then suc n else offered

-- The socket is ready for writing again and again, each time for at least one byte.
unfoldable pub flush : List ℕ → ℕ → Server → Server
flush [] fd s = s
flush (n ∷ ns) fd s = flush ns fd (handle_client_write fd (took (taken n (pending fd s))) s)

flush-Inv : (ns : List ℕ) (fd : ℕ) (s : Server) → Inv s → Inv (flush ns fd s)
unfolding flush
flush-Inv [] fd s i = i
flush-Inv (n ∷ ns) fd s i = flush-Inv ns fd _ (handle_client_write-Inv fd _ s i)

-- The same client, with `most` bytes to send at most.
record Left (c : Client) (most : ℕ) (d : Client) : Type 0 where
  pub alive : d.dead ≡ false
  pub closing_same : d.closing ≡ c.closing
  pub fewer : length d.send_buffer ≤ most

after_send-Left :
    (t : ℕ) (c : Client)
    → 1 ≤ t
    → t ≤ length c.send_buffer
    → c.dead ≡ false
    → Left c (length c.send_buffer - 1) (after_send (took t) c)
unfolding after_send consume_send_buffer
after_send-Left zero c h l a = absurd (omega arith)
after_send-Left (suc n) c h l a = record {
  alive = ground arith;
  closing_same = ground arith;
  fewer = ground (arith, length-drop (suc n) c.send_buffer);
}

some_taken :
    (n : ℕ) (s : Text)
    → is_empty s ≡ false
    → (1 ≤ taken n (length s)) × (taken n (length s) ≤ length s)
some_taken n [] h = cc
some_taken n (b ∷ s) h = ground arith

nothing_left : (c : Client) → is_empty c.send_buffer ≡ true → length c.send_buffer ≡ 0
nothing_left c h = ground arith

written :
    (fd : ℕ) (f : Client → Client) (s : Server) (c : Client)
    → lookup fd s.clients ≡ some c
    → lookup fd (update_client fd f s).clients ≡ some (f c)
unfolding update_client
written fd f s c e = ground (arith, e, lookup-modify fd fd f s.clients)

nothing_written :
    (fd : ℕ) (w : Sent) (s : Server) (c : Client)
    → lookup fd s.clients ≡ some c
    → is_empty c.send_buffer ≡ true
    → handle_client_write fd w s ≡ s
unfolding handle_client_write
nothing_written fd w s c there nothing = rw (there, handle_client_write) (ground (arith, nothing))

wrote :
    (fd : ℕ) (w : Sent) (s : Server) (c : Client)
    → lookup fd s.clients ≡ some c
    → c.dead ≡ false
    → is_empty c.send_buffer ≡ false
    → handle_client_write fd w s ≡ update_client fd (after_send w) s
unfolding handle_client_write
wrote fd w s c there a some_output = rw (there, handle_client_write, a, some_output) refl

pending_lem :
    (fd : ℕ) (s : Server) (c : Client)
    → lookup fd s.clients ≡ some c
    → pending fd s ≡ length c.send_buffer
pending_lem fd s c there = rw (there, pending) refl

write_step :
    (n fd : ℕ) (s : Server) (c : Client)
    → lookup fd s.clients ≡ some c
    → c.dead ≡ false
    → (d : Client) × (lookup fd (handle_client_write fd (took (taken n (pending fd s))) s).clients
        ≡ some d)
      × Left c (length c.send_buffer - 1) d
write_step n fd s c there a = elim (Bool-cases (is_empty c.send_buffer)) [
  | inl nothing ↦ (
    c,
    ap (λ (t : Server). lookup fd t.clients) (nothing_written fd _ s c there nothing) ∙ there,
    record { alive = a; closing_same = refl; fewer = ground (arith, nothing_left c nothing) },
  )
  | inr some_output ↦
      let t = taken n (length c.send_buffer) in
      let (least, enough) = some_taken n c.send_buffer some_output in
      (
        after_send (took t) c,
        ap (λ (u : Server). lookup fd u.clients)
              (wrote fd (took (taken n (pending fd s))) s c there a some_output)
            ∙ ap (λ p. lookup fd (update_client fd (after_send (took (taken n p))) s).clients)
                (pending_lem fd s c there)
            ∙ written fd (after_send (took t)) s c there,
        after_send-Left t c least enough a,
      )
]

flush-Left :
    (ns : List ℕ) (fd : ℕ) (s : Server) (c : Client)
    → lookup fd s.clients ≡ some c
    → c.dead ≡ false
    → (d : Client) × (lookup fd (flush ns fd s).clients ≡ some d)
      × Left c (length c.send_buffer - length ns) d
unfolding flush
flush-Left [] fd s c there a =
    (c, there, record { alive = a; closing_same = refl; fewer = ground arith })
flush-Left (n ∷ ns) fd s c there a =
    let (b, in_b, one) = write_step n fd s c there a in
    let (d, in_d, others) =
      flush-Left ns fd (handle_client_write fd (took (taken n (pending fd s))) s) b in_b
        one.alive in
    (
      d,
      in_d,
      record {
        alive = others.alive;
        closing_same = others.closing_same ∙ one.closing_same;
        fewer = ground (arith, others.fewer, one.fewer);
      },
    )

finished : (d : Client) → d.closing ≡ true → length d.send_buffer ≤ 0 → is_finished d ≡ true
finished d g l = ground arith

-- From a state with the invariant: if a client of the server is closing and not dead, and its socket
-- is ready for writing at least as often as it has bytes to send, taking at least one byte each
-- time, then the next removal of clients removes it.
pub has-flush :
    (ns : List ℕ) (fd : ℕ) (s : Server) (c : Client)
    → Inv s
    → lookup fd s.clients ≡ some c
    → c.dead ≡ false
    → c.closing ≡ true
    → length c.send_buffer ≤ length ns
    → has fd (reap_dead_clients (flush ns fd s)).clients ≡ false
has-flush ns fd s c i there a g enough =
    let (d, in_d, left) = flush-Left ns fd s c there a in
    has-reap_dead_clients fd d (flush ns fd s) (flush-Inv ns fd s i) in_d
    ∙ ap not (finished d (left.closing_same ∙ g) (ground (arith, left.fewer)))
