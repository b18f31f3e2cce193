-- ===== src/Policy/Invariant/All.antt =====
-- The whole invariant, and that every line of a client keeps it.
use irc.Base.{ℕ, ◌≡◌, refl, ◌∙◌, true, List, Option-cases, inl, inr}
use irc.Text.{Text, int_key, text_key}
use irc.Map.{lookup}
use irc.Map.Laws.{has, has-lookup}
use irc.Client.{Client}
use irc.Server.{Server}
use irc.Command.Dispatch.{process_line}
use irc.Policy
use irc.Policy.Names.{Named, Act-Named}
use irc.Policy.Refine.Dispatch.{process_line-Acts}
use irc.Policy.Invariant.Channels.{ChannelsOk, Act-ChannelsOk, has-Act}
use irc.Policy.Invariant.Clients.{ClientsOk, Act-ClientsOk}
use irc.Policy.Invariant.Nicks.{NicksOk, Act-NicksOk}

-- Channels are well formed, stand under their names and hold clients of the server; clients
-- stand under their descriptors, in order, with bounded buffers and accepted names; and no two
-- clients alive share a nickname.
pub record Inv (s : Server) : Type 0 where
  pub named : Named s
  pub channels_ok : ChannelsOk s
  pub clients_ok : ClientsOk s
  pub nicks_ok : NicksOk s.clients

module _ {fd : ℕ} {who : Client} {params : List Text} {start : Server} where
  pub Act-Inv :
      {s t : Server} → Policy.Act fd who params start s t → has fd s.clients ≡ true → Inv s → Inv t
  Act-Inv a k i = record {
    named = Act-Named a i.named;
    channels_ok = Act-ChannelsOk a k i.channels_ok;
    clients_ok = Act-ClientsOk a i.clients_ok;
    nicks_ok = Act-NicksOk a i.nicks_ok;
  }

  pub has-Acts :
      {s t : Server} (x : ℕ)
      → Policy.Acts fd who params start s t
      → has x t.clients ≡ has x s.clients
  has-Acts x Policy.done = refl
  has-Acts x (Policy.also p a) = has-Act x a ∙ has-Acts x p

  pub Acts-Inv :
      {s t : Server} → Policy.Acts fd who params start s t → has fd s.clients ≡ true → Inv s → Inv t
  Acts-Inv Policy.done k i = i
  Acts-Inv (Policy.also p a) k i = Act-Inv a (has-Acts fd p ∙ k) (Acts-Inv p k i)

-- Whatever line a client sends, the invariant of the server is kept.
pub process_line-Inv :
    (fd : ℕ) (raw_line : Text) (s : Server) → Inv s → Inv (process_line fd raw_line s)
process_line-Inv fd raw_line s i = elim (Option-cases (lookup fd s.clients)) [
  | inl gone ↦ unfold process_line in rw (gone, process_line) i
  | inr (who, there) ↦
      Acts-Inv (process_line-Acts fd who raw_line s there i.named) (has-lookup fd s.clients there) i
]
