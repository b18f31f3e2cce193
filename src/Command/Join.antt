-- ===== src/Command/Join.antt =====
-- src/commands/Join.cpp.
use irc.Base.{
  ℕ, ◌+◌, Bool, true, false, not, ◌&&◌, ◌||◌, List, [], ◌∷◌, none, some, length, get_or, is_empty,
  all, ltb, leb, ◌==◌, if◌then◌else◌,
}
use irc.Text.{Text, text_eq, text_key}
use irc.Text.Tokens.{split_string}
use irc.Map.{Map}
use irc.Client.{Client}
use irc.Channel.{
  Channel, is_member, is_operator, is_invited, add_member, add_operator, remove_member,
  remove_invited, get_members_count, set_topic_restricted,
}
use irc.Server.{
  Server, text, line, tell, broadcast, find_channel, create_channel, remove_channel, update_channel,
}
use irc.Command.Common.{user_prefix, nickname_of}

unfoldable pub is_valid_channel_name : Text → Bool
is_valid_channel_name name =
    if is_empty name || ltb 50 (length name)
    then false
    else if not (get_or name 0 0 == b'#') && not (get_or name 0 0 == b'&')
    then false
    else all (λ c. not (c == b' ' || c == b',' || c == 7)) name

-- The member goes, and an empty channel with it.
unfoldable pub drop_member : ℕ → Text → Channel → Server → Server
drop_member fd key ch s =
    let left = update_channel key (remove_member fd) s in
    if get_members_count (remove_member fd ch) == 0 then remove_channel ch.name left else left

-- `JOIN 0` for one channel that the client is in.
unfoldable pub leave_channel : ℕ → Client → Text → Channel → Server → Server
leave_channel fd who key ch s =
    let message =
      line (user_prefix who ∷ text " PART " ∷ ch.name ∷ text " :Left all channels\r\n" ∷ []) in
    drop_member fd key ch (tell fd message (broadcast ch.members message (some fd) s))

-- The loop over a copy of the channel map: its pointers lead to the channels as they are now.
unfoldable pub leave_all : ℕ → Client → Map Text Channel → Server → Server
leave_all fd who [] s = s
leave_all fd who ((key, _) ∷ rest) s = leave_all fd who rest (elim (find_channel key s) [
  | none ↦ s
  | some ch ↦ if is_member fd ch then leave_channel fd who key ch s else s
])

-- The new member takes its place; an invitation is used up.
unfoldable pub enter : ℕ → Channel → Channel
enter fd ch =
    let joined = add_member fd ch in
    if is_invited fd joined then remove_invited fd joined else joined

-- The first member of a new channel is its operator.
unfoldable pub open_channel : ℕ → Channel → Channel
open_channel fd ch = add_operator fd (add_member fd (set_topic_restricted true ch))

-- The members by nickname, `@` before an operator.
unfoldable pub names_list : List ℕ → Channel → Server → Text
names_list [] ch s = []
names_list (x ∷ xs) ch s = line (
    (if is_operator x ch then text "@" else [])
    ∷ nickname_of x s
    ∷ (if is_empty xs then [] else text " ")
    ∷ names_list xs ch s
    ∷ [])

-- The topic, if there is one, and the names, for the client that has joined.
unfoldable pub describe_channel : ℕ → Client → Text → Channel → Server → Server
describe_channel fd who name ch s =
    let topic =
      if is_empty ch.topic
      then s
      else tell fd
          (line (
            text ":server 332 "
            ∷ who.nickname
            ∷ text " "
            ∷ name
            ∷ text " :"
            ∷ ch.topic
            ∷ text "\r\n"
            ∷ []))
          s in
    let names =
      tell fd
        (line (
          text ":server 353 "
          ∷ who.nickname
          ∷ text " = "
          ∷ name
          ∷ text " :"
          ∷ names_list ch.members ch topic
          ∷ text "\r\n"
          ∷ []))
        topic in
    tell fd
      (line (
        text ":server 366 "
        ∷ who.nickname
        ∷ text " "
        ∷ name
        ∷ text " :End of /NAMES list\r\n"
        ∷ []))
      names

unfoldable pub join_message : Client → Text → Text
join_message who name = line (user_prefix who ∷ text " JOIN :" ∷ name ∷ text "\r\n" ∷ [])

-- The messages of a join; `ch` is the channel with the new member.
unfoldable pub announce_join : ℕ → Client → Text → Bool → Channel → Server → Server
announce_join fd who name is_new ch s =
    let message = join_message who name in
    let told = tell fd message (broadcast ch.members message (some fd) s) in
    let moded =
      if is_new
      then tell fd (line (text ":server MODE " ∷ name ∷ text " +t\r\n" ∷ [])) told
      else told in
    describe_channel fd who name ch moded

abbrev pub cannot_join : ℕ → Client → Text → Text → Text → Server → Server
cannot_join fd who code name why s =
    tell fd (line (code ∷ who.nickname ∷ text " " ∷ name ∷ why ∷ [])) s

-- A channel that exists: its key, its invitations and its limit are asked in this order.
unfoldable pub join_existing : ℕ → Client → Text → Text → Channel → Server → Server
join_existing fd who name provided_key ch s =
    if is_member fd ch
    then s
    else if not (is_empty ch.password) && not (text_eq ch.password provided_key)
    then cannot_join fd who (text ":server 475 ") name
        (text " :Cannot join channel (+k) - bad key\r\n") s
    else if ch.is_invite_only && not (is_invited fd ch)
    then cannot_join fd who (text ":server 473 ") name
        (text " :Cannot join channel (+i) - you must be invited\r\n") s
    else if ltb 0 ch.user_limit && leb ch.user_limit (get_members_count ch)
    then cannot_join fd who (text ":server 471 ") name
        (text " :Cannot join channel (+l) - channel is full\r\n") s
    else announce_join fd who name false (enter fd ch) (update_channel name (enter fd) s)

unfoldable pub join_new : ℕ → Client → Text → Server → Server
join_new fd who name s =
    let opened = update_channel name (open_channel fd) (create_channel name s) in
    elim (find_channel name opened) [
      | none ↦ opened
      | some ch ↦ announce_join fd who name true ch opened
    ]

unfoldable pub join_one : ℕ → Client → Text → Text → Server → Server
join_one fd who name provided_key s =
    if not (is_valid_channel_name name)
    then tell fd
        (line (
          text ":server 403 " ∷ who.nickname ∷ text " " ∷ name ∷ text " :No such channel\r\n" ∷ []))
        s
    else elim (find_channel name s) [
      | none ↦ join_new fd who name s
      | some ch ↦ join_existing fd who name provided_key ch s
    ]

-- The loop over the channels, from index `i` on, each with the key at its own index.
unfoldable pub join_all : ℕ → Client → List Text → ℕ → List Text → Server → Server
join_all fd who [] i keys s = s
join_all fd who (name ∷ names) i keys s =
    join_all fd who names (i + 1) keys
      (join_one fd who name (if ltb i (length keys) then get_or keys i [] else []) s)

unfoldable pub execute_join : ℕ → Client → List Text → Server → Server
execute_join fd who params s =
    if is_empty params
    then tell fd
        (line (text ":server 461 " ∷ who.nickname ∷ text " JOIN :Not enough parameters\r\n" ∷ [])) s
    else if text_eq (get_or params 0 []) (b'0' ∷ [])
    then leave_all fd who s.channels s
    else join_all fd who (split_string (get_or params 0 []) b',') 0
        (if ltb 1 (length params) then split_string (get_or params 1 []) b',' else []) s
