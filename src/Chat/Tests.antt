-- ===== src/Chat/Tests.antt =====
-- Runs of the chat server's manager and methods.
use rust_netx.Prelude.{
  ◌==◌, if◌then◌else◌, ap, ℕ, ◌≡◌, ◌≢◌, ◌⊎◌, refl, arith, true, none, some, List, [], ◌∷◌, codes,
  length,
}
use rust_netx.Token.{new}
use rust_netx.Manager.{World, get_token}
use rust_netx.Manager
use rust_netx.Chat.{
  User, check_nickname, add, find, find_by_nickname, talk, tell, Message, done, fault, not_login,
  not_found,
}
use rust_netx.Chat.Logins.{
  Room, empty_room, checks, adds, Steps, start, next, Distinct, one_login_at_a_time-Distinct,
}
use rust_netx.Chat.Races.{user_of, logins_race}
use rust_netx.Chat.Talk.{talk-Reaches, AllReached}

abbrev ann : List ℕ
ann = codes "ann"

abbrev bob : List ℕ
bob = codes "bob"

abbrev two_users : List User
two_users = user_of 1 ann ∷ user_of 2 bob ∷ []

room1 : Steps 1 empty_room (record { users = []; checked = user_of 1 ann ∷ [] })
unfolding check_nickname
room1 = next start (checks (user_of 1 ann) refl) (omega arith)

room2 : Steps 1 empty_room (record { users = user_of 1 ann ∷ []; checked = [] })
unfolding add
room2 = next room1 (adds (user_of 1 ann) [] [] refl) (omega arith)

abbrev bob_checked : Room
bob_checked = record { users = user_of 1 ann ∷ []; checked = user_of 2 bob ∷ [] }

room3 : Steps 1 empty_room bob_checked
unfolding check_nickname
room3 = next room2 (checks (user_of 2 bob) refl) (omega arith)

room4 : Steps 1 empty_room (record { users = two_users; checked = [] })
unfolding add
room4 = next room3 (adds (user_of 2 bob) [] [] refl) (omega arith)

one_login_at_a_time-Distinct_example : Distinct two_users
one_login_at_a_time-Distinct_example =
    one_login_at_a_time-Distinct (record { users = two_users; checked = [] }) room4

absent3 : find two_users 3 ≡ none
unfolding find
absent3 = refl

free_cat : check_nickname two_users (codes "cat") ≡ true
unfolding check_nickname
free_cat = refl

free_tiger : check_nickname two_users (codes "tiger") ≡ true
unfolding check_nickname
free_tiger = refl

cat_tiger : codes "cat" ≢ codes "tiger"
cat_tiger e = absurd (omega (arith, ap length e))

logins_race_example :
    let both = add (add two_users (user_of 3 (codes "cat"))) (user_of 4 (codes "cat")) in
    Steps 2 (record { users = two_users; checked = [] }) (record { users = both; checked = [] })
    × (find_by_nickname both (codes "cat") ≡ some (user_of 3 (codes "cat")))
logins_race_example = logins_race two_users 3 4 (codes "cat") free_cat

-- Both sessions have a token, at 5 and at 6, and only that at 6 has a peer.
abbrev two_online : World
two_online = record (Manager.start 5000 9000) {
  dict = (1, 5) ∷ (2, 6) ∷ [];
  tokens = λ a. if a == 6 then record (new 2) { peer = some 3 } else new 1;
}

talk-Reaches_example :
    let r = talk (some two_online) two_users 1 (codes "hi") in
    ((from : User) × (find two_users 1 ≡ some from)
      × AllReached two_online from (codes "hi") two_users r)
    ⊎ ((find two_users 1 ≡ none) × (r ≡ ([], fault not_login)))
talk-Reaches_example = talk-Reaches two_online two_users 1 (codes "hi")

abbrev hi_bob : Message
hi_bob = record { to = 6; nickname = ann; msg = codes "hi"; to_me = true }

no_cat : tell (some two_online) two_users 1 (codes "cat") [] ≡ fault (not_found (codes "cat"))
unfolding tell
no_cat = refl

third_is_silent : talk (some two_online) two_users 3 [] ≡ ([], fault not_login)
unfolding talk
third_is_silent = refl

bob_hears : tell (some two_online) two_users 1 bob (codes "hi") ≡ done (hi_bob ∷ [])
unfolding tell
bob_hears = refl

-- A session that is saved without a connection gets nothing, and no error comes out.
ann_is_away :
    (tell (some two_online) two_users 2 ann (codes "hi") ≡ done [])
    × (talk (some two_online) two_users 2 (codes "hi") ≡ ([], done tt))
unfolding tell talk
ann_is_away = (refl, refl)
