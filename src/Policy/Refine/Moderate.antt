-- ===== src/Policy/Refine/Moderate.antt =====
-- KICK, INVITE, TOPIC and PRIVMSG.
use irc.Base.{
  refl, if◌then◌else◌, not-false, ℕ, ◌+◌, ◌≡◌, ap, ◌∙◌, Bool, true, false, not, ◌&&◌, List, [], ◌∷◌,
  some, length, get_or, is_empty, ltb, ◌==◌, arith,
}
use irc.Text.{Text, int_key, text_key}
use irc.Text.Tokens.{split_string}
use irc.Map.{lookup}
use irc.Client.{Client}
use irc.Channel.{Channel, is_member, is_operator}
use irc.Server.{Server, find_client_by_nick, find_channel}
use irc.Server.Delivery.{channels-tell, channels-broadcast}
use irc.Command.Kick.{execute_kick, kick_all, kick_one, kick_from, kick_member}
use irc.Command.Invite.{execute_invite, invite_to, invite_guest}
use irc.Command.Topic.{execute_topic, topic_of, show_topic, change_topic}
use irc.Command.Privmsg.{execute_privmsg, message_all, message_one, is_channel}
use irc.Policy.{
  Listed, listed_name, kicks, invites, retopics, Acts, done, also, Acts-trans, Acts-tell, Acts-if,
  Acts-either, Acts-option, Acts-broadcast, Registered,
}

unless : (a b : Bool) → (a && not b) ≡ false → a ≡ true → b ≡ true
unless a b h k = ground arith

module _ (fd : ℕ) (who : Client) (params : List Text) (start : Server) (r : Registered who) where
  kick_member-Acts :
      (name nick reason : Text) (target : ℕ) (ch : Channel) (t : Server)
      → Listed name params
      → find_channel name t ≡ some ch
      → is_operator fd ch ≡ true
      → is_member target ch ≡ true
      → Acts fd who params start t (kick_member fd who name nick reason target ch t)
  unfolding kick_member
  kick_member-Acts name nick reason target ch t a e op m =
      also (Acts-tell _ _ (Acts-broadcast _ _ _ done)) (
        kicks name ch target r a
          (ap (lookup name) (channels-tell _ _ _ ∙ channels-broadcast _ _ _ t) ∙ e) op m)

  kick_one-Acts :
      (name nick reason : Text) (t : Server)
      → Listed name params
      → Acts fd who params start t (kick_one fd who name nick reason t)
  unfolding kick_one kick_from
  kick_one-Acts name nick reason t a =
      Acts-option (find_channel name t) (λ _. Acts-tell _ _ done)
        λ ch e. Acts-either (not (is_member fd ch)) (Acts-tell _ _ done) (
          Acts-if (not (is_operator fd ch)) (λ _. Acts-tell _ _ done)
            λ op.
              Acts-option (find_client_by_nick nick t) (λ _. Acts-tell _ _ done)
                λ target _.
                  Acts-if (not (is_member target ch)) (λ _. Acts-tell _ _ done)
                    λ m.
                      kick_member-Acts name nick reason target ch t a e (not-false _ op)
                        (not-false _ m))

  kick_all-Acts :
      (channels : List Text) (i : ℕ) (users : List Text) (reason : Text) (t : Server)
      → ((place : ℕ) → get_or channels place [] ≡ listed_name place params)
      → Acts fd who params start t (kick_all fd who channels i users reason t)
  unfolding kick_all
  kick_all-Acts channels i [] reason t a = done
  kick_all-Acts channels i (user ∷ users) reason t a =
      let place : ℕ = if length channels == 1 then 0 else i in
      Acts-trans (kick_one-Acts _ user reason t (place, a place))
        (kick_all-Acts channels (i + 1) users reason _ a)

  pub execute_kick-Acts : (s : Server) → Acts fd who params start s (execute_kick fd who params s)
  unfolding execute_kick
  execute_kick-Acts s =
      let channels = split_string (get_or params 0 []) b',' in
      let users = split_string (get_or params 1 []) b',' in
      Acts-either (ltb (length params) 2) (Acts-tell _ _ done) (
        Acts-either (not (length channels == 1) && not (length channels == length users))
          (Acts-tell _ _ done) (kick_all-Acts channels 0 users _ s (λ place. refl)))

  invite_to-Acts :
      (nick name : Text) (target : ℕ) (ch : Channel) (s : Server)
      → find_channel name s ≡ some ch
      → (name ≡ get_or params 1 []) × (find_client_by_nick (get_or params 0 []) s ≡ some target)
      → Acts fd who params start s (invite_to fd who nick name target ch s)
  unfolding invite_to invite_guest
  invite_to-Acts nick name target ch s e a =
      Acts-if (not (is_member fd ch)) (λ _. Acts-tell _ _ done)
        λ m.
          Acts-if (is_member target ch) (λ _. Acts-tell _ _ done)
            λ outside.
              Acts-if (ch.is_invite_only && not (is_operator fd ch)) (λ _. Acts-tell _ _ done)
                λ op. Acts-tell _ _ (
                  Acts-tell _ _ (
                    also done
                      (invites name ch target r a e (not-false _ m) outside (unless _ _ op))))

  pub execute_invite-Acts :
      (s : Server) → Acts fd who params start s (execute_invite fd who params s)
  unfolding execute_invite
  execute_invite-Acts s = Acts-either (ltb (length params) 2) (Acts-tell _ _ done) (
      Acts-option (find_client_by_nick (get_or params 0 []) s) (λ _. Acts-tell _ _ done)
        λ target found.
          Acts-option (find_channel (get_or params 1 []) s) (λ _. Acts-tell _ _ done)
            λ ch e. invite_to-Acts _ _ target ch s e (refl, found))

  topic_of-Acts :
      (ch : Channel) (s : Server)
      → find_channel (get_or params 0 []) s ≡ some ch
      → Acts fd who params start s (topic_of fd who params ch s)
  unfolding topic_of show_topic change_topic
  topic_of-Acts ch s e =
      Acts-if (not (is_member fd ch)) (λ _. Acts-tell _ _ done)
        λ m.
          Acts-either (length params == 1)
            (Acts-either (is_empty ch.topic) (Acts-tell _ _ done) (Acts-tell _ _ done))
            (Acts-if (ch.topic_restricted && not (is_operator fd ch)) (λ _. Acts-tell _ _ done)
              λ op. Acts-tell _ _ (
                Acts-broadcast _ _ _
                  (also done (retopics _ _ ch r (refl, refl) e (not-false _ m) (unless _ _ op)))))

  pub execute_topic-Acts : (s : Server) → Acts fd who params start s (execute_topic fd who params s)
  unfolding execute_topic
  execute_topic-Acts s = Acts-either (ltb (length params) 1) (Acts-tell _ _ done) (
      Acts-option (find_channel (get_or params 0 []) s) (λ _. Acts-tell _ _ done)
        λ ch e. topic_of-Acts ch s e)

  message_one-Acts :
      (message_text target : Text) (t : Server)
      → Acts fd who params start t (message_one fd who message_text target t)
  unfolding message_one
  message_one-Acts message_text target t =
      Acts-either (is_channel target)
        (Acts-option (find_channel target t) (λ _. Acts-tell _ _ done)
          λ ch _.
            Acts-either (not (is_member fd ch)) (Acts-tell _ _ done) (Acts-broadcast _ _ _ done))
        (Acts-option (find_client_by_nick target t) (λ _. Acts-tell _ _ done)
          λ receiver _. Acts-tell _ _ done)

  message_all-Acts :
      (message_text : Text) (targets : List Text) (t : Server)
      → Acts fd who params start t (message_all fd who message_text targets t)
  unfolding message_all
  message_all-Acts message_text [] t = done
  message_all-Acts message_text (target ∷ targets) t =
      Acts-trans (message_one-Acts message_text target t) (message_all-Acts message_text targets _)

  pub execute_privmsg-Acts :
      (s : Server) → Acts fd who params start s (execute_privmsg fd who params s)
  unfolding execute_privmsg
  execute_privmsg-Acts s = Acts-either (is_empty params) (Acts-tell _ _ done) (
      Acts-either (ltb (length params) 2) (Acts-tell _ _ done)
        (message_all-Acts _ (split_string (get_or params 0 []) b',') s))
