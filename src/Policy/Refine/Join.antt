-- ===== src/Policy/Refine/Join.antt =====
-- JOIN and `JOIN 0`.
use irc.Base.{
  zero, suc, Bool-cases, inl, inr, not-false, ℕ, ◌+◌, ◌≡◌, refl, ap, ◌∙◌, Bool, true, false, not,
  ◌&&◌, List, [], ◌∷◌, none, some, length, get_or, is_empty, ltb, leb, ◌==◌, if◌then◌else◌, arith,
}
use irc.Text.{Text, text_eq, text_eq_iff, text_eq_refl, text_key}
use irc.Text.Tokens.{split_string}
use irc.Map.{Map, lookup}
use irc.Map.Laws.{lookup-modify, lookup-Entries}
use irc.Client.{Client}
use irc.Channel.{Channel, is_member, is_invited, get_members_count, remove_member}
use irc.Server.{Server, find_channel, create_channel, update_channel}
use irc.Server.Delivery.{channels-tell, channels-broadcast}
use irc.Command.Join.{
  execute_join, join_all, join_one, join_new, join_existing, announce_join, describe_channel,
  leave_all, leave_channel, drop_member, is_valid_channel_name, open_channel, enter,
}
use irc.Policy.Names.{Named, Acts-Named}
use irc.Policy.{
  creates, joins, leaves, removes, MayJoin, Listed, listed_name, listed_key, Acts, done, also,
  Acts-trans, Acts-tell, Acts-if, Acts-either, Acts-option, Acts-broadcast, Registered,
}

no_members : (xs : List ℕ) → (length xs == 0) ≡ true → xs ≡ []
no_members [] h = refl
no_members (x ∷ xs) h = absurd (ground arith)

-- The tests that a join has passed are what the policy asks for.
may_join :
    (fd : ℕ) (params : List Text) (name : Text) (place : ℕ) (ch : Channel)
    → name ≡ listed_name place params
    → is_member fd ch ≡ false
    → (not (is_empty ch.password) && not (text_eq ch.password (listed_key place params))) ≡ false
    → (ch.is_invite_only && not (is_invited fd ch)) ≡ false
    → (ltb 0 ch.user_limit && leb ch.user_limit (get_members_count ch)) ≡ false
    → MayJoin fd params name ch
may_join fd params name place ch a m k i l = record {
  place = place;
  asked = a;
  no_member = m;
  has_key = ground (arith, text_eq_iff ch.password (listed_key place params));
  has_invitation = ground arith;
  has_room = ground arith;
}

-- The key that the loop takes for the name at a place.
abbrev key_at : List Text → ℕ → Text
key_at keys i = if ltb i (length keys) then get_or keys i [] else []

key_at-get_or : (keys : List Text) (i : ℕ) → key_at keys i ≡ get_or keys i []
key_at-get_or [] i = ground arith
key_at-get_or (key ∷ keys) zero = ground arith
key_at-get_or (key ∷ keys) (suc i) = ground (arith, key_at-get_or keys i)

no_second : (params : List Text) → ltb 1 (length params) ≡ false → get_or params 1 [] ≡ []
no_second [] h = refl
no_second (p ∷ []) h = refl
no_second (p ∷ q ∷ rest) h = absurd (ground arith)

key_at-listed_key :
    (params : List Text) (i : ℕ)
    → key_at (if ltb 1 (length params) then split_string (get_or params 1 []) b',' else []) i
      ≡ listed_key i params
unfolding split_string
key_at-listed_key params i = elim (Bool-cases (ltb 1 (length params))) [
  | inl given ↦ rw given (key_at-get_or (split_string (get_or params 1 []) b',') i)
  | inr missing ↦ rw (missing, no_second params missing) (key_at-get_or [] i)
]

module _ (fd : ℕ) (who : Client) (params : List Text) (start : Server) (r : Registered who) where
  describe_channel-Acts :
      (name : Text) (ch : Channel) (s t : Server)
      → Acts fd who params start s t
      → Acts fd who params start s (describe_channel fd who name ch t)
  unfolding describe_channel
  describe_channel-Acts name ch s t p =
      Acts-tell _ _ (Acts-tell _ _ (Acts-either (is_empty ch.topic) p (Acts-tell _ _ p)))

  announce_join-Acts :
      (name : Text) (is_new : Bool) (ch : Channel) (s t : Server)
      → Acts fd who params start s t
      → Acts fd who params start s (announce_join fd who name is_new ch t)
  unfolding announce_join
  announce_join-Acts name is_new ch s t p =
      let told = Acts-tell fd _ (Acts-broadcast ch.members _ _ p) in
      describe_channel-Acts name ch s _ (Acts-either is_new (Acts-tell _ _ told) told)

  join_existing-Acts :
      (name : Text) (place : ℕ) (ch : Channel) (s : Server)
      → name ≡ listed_name place params
      → find_channel name s ≡ some ch
      → Acts fd who params start s (join_existing fd who name (listed_key place params) ch s)
  unfolding join_existing
  join_existing-Acts name place ch s a e =
      Acts-if (is_member fd ch) (λ _. done)
        λ m.
          Acts-if
            (not (is_empty ch.password) && not (text_eq ch.password (listed_key place params)))
            (λ _. Acts-tell _ _ done)
            λ k.
              Acts-if (ch.is_invite_only && not (is_invited fd ch)) (λ _. Acts-tell _ _ done)
                λ i.
                  Acts-if (ltb 0 ch.user_limit && leb ch.user_limit (get_members_count ch))
                    (λ _. Acts-tell _ _ done)
                    λ l.
                      announce_join-Acts name false (enter fd ch) s _
                        (also done (joins name ch r e (may_join fd params name place ch a m k i l)))

  join_new-Acts :
      (name : Text) (s : Server)
      → Listed name params
      → is_valid_channel_name name ≡ true
      → find_channel name s ≡ none
      → Acts fd who params start s (join_new fd who name s)
  unfolding join_new
  join_new-Acts name s a v e =
      let opened = also done (creates name r a v e) in
      Acts-option
        (find_channel name (update_channel name (open_channel fd) (create_channel name s)))
        (λ _. opened) (λ ch _. announce_join-Acts name true ch s _ opened)

  join_one-Acts :
      (name : Text) (place : ℕ) (s : Server)
      → name ≡ listed_name place params
      → Acts fd who params start s (join_one fd who name (listed_key place params) s)
  unfolding join_one
  join_one-Acts name place s a =
      Acts-if (not (is_valid_channel_name name)) (λ _. Acts-tell _ _ done)
        λ v.
          Acts-option (find_channel name s) (λ e. join_new-Acts name s (place, a) (not-false _ v) e)
            (λ ch e. join_existing-Acts name place ch s a e)

  join_all-Acts :
      (names : List Text) (i : ℕ) (keys : List Text) (s : Server)
      → ((j place : ℕ) → place ≡ i + j → get_or names j [] ≡ listed_name place params)
      → ((j : ℕ) → key_at keys j ≡ listed_key j params)
      → Acts fd who params start s (join_all fd who names i keys s)
  unfolding join_all
  join_all-Acts [] i keys s a k = done
  join_all-Acts (name ∷ names) i keys s a k =
      let first = join_one-Acts name i s (a 0 i (omega arith)) in
      Acts-trans (rw (k i) first)
        (join_all-Acts names (i + 1) keys _ (λ j place e. a (suc j) place (omega (arith, e))) k)

  drop_member-Acts :
      (key : Text) (ch : Channel) (s t : Server)
      → ch.name ≡ key
      → find_channel key t ≡ some ch
      → get_or params 0 [] ≡ b'0' ∷ []
      → Acts fd who params start s t
      → Acts fd who params start s (drop_member fd key ch t)
  unfolding drop_member update_channel
  drop_member-Acts key ch s t n e a p =
      Acts-if (get_members_count (remove_member fd ch) == 0)
        (λ z. also (also p (leaves key r a)) (
          removes ch.name (remove_member fd ch) r
            (rw n (
              ground
                (arith, lookup-modify key key (remove_member fd) t.channels, text_eq_refl key)))
            (no_members _ z)))
        (λ _. also p (leaves key r a))

  leave_channel-Acts :
      (key : Text) (ch : Channel) (s : Server)
      → ch.name ≡ key
      → find_channel key s ≡ some ch
      → get_or params 0 [] ≡ b'0' ∷ []
      → Acts fd who params start s (leave_channel fd who key ch s)
  unfolding leave_channel
  leave_channel-Acts key ch s n e a =
      drop_member-Acts key ch s _ n
        (ap (lookup key) (channels-tell _ _ _ ∙ channels-broadcast _ _ _ s) ∙ e) a
        (Acts-tell _ _ (Acts-broadcast _ _ _ done))

  leave_one-Acts :
      (key : Text) (s : Server)
      → Named s
      → get_or params 0 [] ≡ b'0' ∷ []
      → Acts fd who params start s (elim (find_channel key s) [
        | none ↦ s
        | some ch ↦ if is_member fd ch then leave_channel fd who key ch s else s
      ])
  leave_one-Acts key s n a =
      Acts-option (find_channel key s) (λ _. done)
        λ ch e.
          Acts-either (is_member fd ch)
            (leave_channel-Acts key ch s (lookup-Entries (λ k c. c.name ≡ k) key s.channels n e) e
              a)
            done

  leave_all-Acts :
      (copy : Map Text Channel) (s : Server)
      → Named s
      → get_or params 0 [] ≡ b'0' ∷ []
      → Acts fd who params start s (leave_all fd who copy s)
  unfolding leave_all
  leave_all-Acts [] s n a = done
  leave_all-Acts ((key, old) ∷ rest) s n a =
      let p = leave_one-Acts key s n a in Acts-trans p (leave_all-Acts rest _ (Acts-Named p n) a)

  -- JOIN of a registered client, in a server whose channels stand under their names, is a sequence
  -- of acts that the policy grants: a channel is created under a valid free name, entered with its
  -- key, invitation and room, or left; and removed only when it is empty.
  pub execute_join-Acts :
      (s : Server) → Named s → Acts fd who params start s (execute_join fd who params s)
  unfolding execute_join
  execute_join-Acts s n = Acts-either (is_empty params) (Acts-tell _ _ done) (
      Acts-if (text_eq (get_or params 0 []) (b'0' ∷ []))
        (λ e. leave_all-Acts s.channels s n ((text_eq_iff (get_or params 0 []) (b'0' ∷ [])).0 e))
        (λ _.
          join_all-Acts (split_string (get_or params 0 []) b',') 0
            (if ltb 1 (length params) then split_string (get_or params 1 []) b',' else []) s
            (λ j place e. ap (λ p. listed_name p params) (omega (arith, e)))
            (key_at-listed_key params)))
