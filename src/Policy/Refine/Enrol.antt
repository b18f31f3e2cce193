-- ===== src/Policy/Refine/Enrol.antt =====
-- PASS, USER and NICK.
use irc.Base.{refl, not-false, ℕ, not, ◌&&◌, ◌||◌, List, [], length, get_or, is_empty, leb, ltb}
use irc.Text.{Text, text_eq, text_eq_iff}
use irc.Client.{Client, is_registered}
use irc.Server.{Server, update_client, broadcast_nickname_change}
use irc.Command.Pass.{
  execute_pass, reject_password, limit_attempts, max_failed_pass_attempts, failed_pass_attempts_of,
}
use irc.Command.User.{execute_user, is_valid_username, greet}
use irc.Command.Nick.{
  execute_nick, change_nick, announce_nick, set_nick, is_valid_nickname, is_taken_by_other,
}
use irc.Policy.{
  authenticates, fails_pass, closes, identifies, renames, Acts, done, also, Acts-tell, Acts-if,
  Acts-either, Acts-broadcast, HasPass,
}

module _ (fd : ℕ) (who : Client) (params : List Text) (s : Server) where
  limit_attempts-Acts :
      (t : Server) → Acts fd who params s s t → Acts fd who params s s (limit_attempts fd t)
  unfolding limit_attempts
  limit_attempts-Acts t p =
      Acts-either (leb max_failed_pass_attempts (failed_pass_attempts_of fd t)) (also p (closes _))
        p

  -- PASS lets a client in only on the password of the server.
  pub execute_pass-Acts : Acts fd who params s s (execute_pass fd who params s)
  unfolding execute_pass reject_password
  execute_pass-Acts = Acts-either who.pass_ok (Acts-tell _ _ done) (
      Acts-either (is_empty params || is_empty (get_or params 0 [])) (Acts-tell _ _ done) (
        Acts-if (text_eq (get_or params 0 []) s.password)
          (λ e. also done (authenticates ((text_eq_iff (get_or params 0 []) s.password).0 e)))
          (λ _. limit_attempts-Acts _ (Acts-tell _ _ (also done fails_pass)))))

  greet-Acts :
      (c : Client) (t : Server) → Acts fd who params s s t → Acts fd who params s s (greet fd c t)
  unfolding greet
  greet-Acts c t p = Acts-either (is_registered c) (Acts-tell _ _ p) p

  pub execute_user-Acts : HasPass who → Acts fd who params s s (execute_user fd who params s)
  unfolding execute_user
  execute_user-Acts h = Acts-either who.user_set (Acts-tell _ _ done) (
      Acts-either (ltb (length params) 4) (Acts-tell _ _ done) (
        Acts-if (not (is_valid_username (get_or params 0 []))) (λ _. Acts-tell _ _ done)
          (λ e.
            greet-Acts _ _ (also done (identifies (get_or params 0 []) h refl (not-false _ e))))))

  announce_nick-Acts :
      (nickname : Text) (t : Server)
      → Acts fd who params s s t
      → Acts fd who params s s (announce_nick fd who nickname t)
  unfolding announce_nick broadcast_nickname_change
  announce_nick-Acts nickname t p =
      Acts-either (is_registered who && not (text_eq who.nickname nickname))
        (Acts-either (is_empty who.nickname || is_empty nickname) p (Acts-broadcast _ _ _ p)) p

  change_nick-Acts :
      (nickname : Text)
      → Acts fd who params s s (update_client fd (set_nick nickname) s)
      → Acts fd who params s s (change_nick fd who nickname s)
  unfolding change_nick
  change_nick-Acts nickname set =
      let announced = announce_nick-Acts nickname (update_client fd (set_nick nickname) s) set in
      Acts-either (is_registered who) announced (greet-Acts _ _ announced)

  pub execute_nick-Acts : HasPass who → Acts fd who params s s (execute_nick fd who params s)
  unfolding execute_nick
  execute_nick-Acts h =
      Acts-either (is_empty params || is_empty (get_or params 0 [])) (Acts-tell _ _ done) (
        Acts-if (not (is_valid_nickname (get_or params 0 []))) (λ _. Acts-tell _ _ done)
          (λ v.
            Acts-if (is_taken_by_other fd (get_or params 0 []) s) (λ _. Acts-tell _ _ done)
              (λ free.
                change_nick-Acts (get_or params 0 [])
                  (also done (renames (get_or params 0 []) h refl (not-false _ v) free)))))
