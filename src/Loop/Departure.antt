-- ===== src/Loop/Departure.antt =====
-- What a client that is disconnected leaves behind: nothing.
use irc.Base.{ℕ, ◌≡◌, false, [], ◌∷◌, none, some, arith}
use irc.Text.{Text, int_key, text_key}
use irc.Map.{Map, lookup}
use irc.Map.Laws.{Entries, lookup-erase}
use irc.Client.{Client}
use irc.Channel.{Channel, is_member, is_operator, is_invited, remove_member, remove_invited}
use irc.Channel.Invariant.{
  WellFormed, is_member-remove_member, is_operator-remove_member, is_invited-remove_invited,
  remove_member-WellFormed,
}
use irc.Server.{Server}
use irc.Policy.Invariant.Channels.{ChannelOk}
use irc.Policy.Invariant.All.{Inv}
use irc.Loop.{forget_client, remove_client, announce_quit, disconnect_client}
use irc.Loop.Invariant.Leave.{announce_quit-Inv}

-- The client has no part in the channel.
pub record Stranger (fd : ℕ) (ch : Channel) : Type 0 where
  pub no_member : is_member fd ch ≡ false
  pub no_operator : is_operator fd ch ≡ false
  pub no_invitation : is_invited fd ch ≡ false

forgotten-Stranger :
    (fd : ℕ) (ch : Channel) → WellFormed ch → Stranger fd (remove_invited fd (remove_member fd ch))
forgotten-Stranger fd ch w = record {
  no_member =
      (let same : is_member fd (remove_invited fd (remove_member fd ch))
            ≡ is_member fd (remove_member fd ch) =
          unfold remove_invited in ground arith in
        ground (arith, same, is_member-remove_member fd fd ch w));
  no_operator =
      (let same : is_operator fd (remove_invited fd (remove_member fd ch))
            ≡ is_operator fd (remove_member fd ch) =
          unfold remove_invited in ground arith in
        ground (arith, same, is_operator-remove_member fd fd ch w));
  no_invitation = ground (
    arith,
    is_invited-remove_invited fd fd (remove_member fd ch) (remove_member-WellFormed fd ch w),
  );
}

forget_client-Stranger :
    (fd : ℕ) (clients : Map ℕ Client) (m : Map Text Channel)
    → Entries (λ _ ch. ChannelOk clients ch) m
    → Entries (λ _ ch. Stranger fd ch) (forget_client fd m)
unfolding forget_client
forget_client-Stranger fd clients [] h = tt
forget_client-Stranger fd clients ((name, ch) ∷ rest) h =
    (forgotten-Stranger fd ch h.0.well_formed, forget_client-Stranger fd clients rest h.1)

removed : (fd : ℕ) (s : Server) → lookup fd (remove_client fd s).clients ≡ none
unfolding remove_client
removed fd s = ground (arith, lookup-erase fd fd s.clients)

-- From a state with the invariant, after the disconnection of a client of the server, the server does not know it, and it
-- is no member, no operator and no invited client of any channel.
pub disconnect_client-Stranger :
    (fd : ℕ) (s : Server) (c : Client)
    → lookup fd s.clients ≡ some c
    → Inv s
    → (lookup fd (disconnect_client fd s).clients ≡ none)
      × Entries (λ _ ch. Stranger fd ch) (disconnect_client fd s).channels
unfolding disconnect_client remove_client
disconnect_client-Stranger fd s c there i =
    let told = announce_quit-Inv fd c s i in
    rw (there, disconnect_client)
      (
        removed fd (announce_quit fd c s),
        forget_client-Stranger fd _ (announce_quit fd c s).channels told.channels_ok,
      )
