-- ===== src/Command/Common.antt =====
-- What several handlers share: the display name, the prefix of a message from a client, and reads
-- through a `Client *`.
use irc.Base.{ℕ, [], ◌∷◌, none, some, is_empty, if◌then◌else◌}
use irc.Text.{Text, int_key}
use irc.Map.{lookup}
use irc.Client.{Client}
use irc.Server.{Server, text, line}

-- `client.getNickname().empty() ? "*" : client.getNickname()`.
unfoldable pub display_name : Client → Text
display_name who = if is_empty who.nickname then text "*" else who.nickname

-- `":" + nickname + "!" + username + "@localhost"`.
unfoldable pub user_prefix : Client → Text
user_prefix who = line (text ":" ∷ who.nickname ∷ text "!" ∷ who.username ∷ text "@localhost" ∷ [])

-- The nickname of the client that a pointer leads to.
unfoldable pub nickname_of : ℕ → Server → Text
nickname_of fd s = elim (lookup fd s.clients) [ none ↦ [] | some c ↦ c.nickname ]
