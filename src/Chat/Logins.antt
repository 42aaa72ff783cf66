-- ===== src/Chat/Logins.antt =====
-- The logins of examples/msg/msgserver/src/controller.rs under the manager of user_manager.rs. The
-- actor runs one of its calls at a time, but `login` makes two of them, `check_nickname` and `add`.
use rust_netx.Prelude.{
  ap, inl, inr, ℕ, ◌+◌, ◌<◌, ◌≡◌, refl, true, false, ◌&&◌, not, List, [], ◌∷◌, ◌++◌, arith, length,
  All, bytes_eq, ◌==◌, Bool-cases, length-append,
}
use rust_netx.Chat.{User, check_nickname, add, remove, close}

-- The users of the manager, and those that a `login` has checked and not yet added.
pub record Room : Type 0 where
  pub users : List User
  pub checked : List User

abbrev pub empty_room : Room
empty_room = record { users = []; checked = [] }

-- One call of the actor by the task of some session.
pub data Step (r : Room) : Room → Type 0 where
  checks :
      (u : User)
      → check_nickname r.users u.nickname ≡ true
      → Step r (record r { checked = r.checked ++ (u ∷ []) })
  refuses : (u : User) → check_nickname r.users u.nickname ≡ false → Step r r
  adds :
      (u : User) (earlier later : List User)
      → r.checked ≡ earlier ++ (u ∷ later)
      → Step r (record { users = add r.users u; checked = earlier ++ later })
  closes : (session_id : ℕ) → Step r (record r { users = close r.users session_id })

-- Steps from one room to another, where no room on the way has more than `n` logins between their
-- two calls.
pub data Steps (n : ℕ) (r : Room) : Room → Type 0 where
  start : Steps n r r
  next : {r' r'' : Room} → Steps n r r' → Step r' r'' → length r''.checked < n + 1 → Steps n r r''

-- No two users have the same nickname.
abbrev pub Distinct : List User → Type 0
Distinct [] = Unit {0}
Distinct (u ∷ us) = (check_nickname us u.nickname ≡ true) × Distinct us

abbrev Free : List User → User → Type 0
Free us u = check_nickname us u.nickname ≡ true

bytes_eq_sym : (a b : List ℕ) → bytes_eq a b ≡ bytes_eq b a
bytes_eq_sym [] [] = refl
bytes_eq_sym [] (b ∷ bs) = refl
bytes_eq_sym (a ∷ as') [] = refl
bytes_eq_sym (a ∷ as') (b ∷ bs) = ground (arith, bytes_eq_sym as' bs)

pub check_nickname-add :
    (us : List User) (u : User) (n : List ℕ)
    → check_nickname (add us u) n ≡ (check_nickname us n && not (bytes_eq u.nickname n))
unfolding check_nickname add
check_nickname-add [] u n = ground arith
check_nickname-add (v ∷ us) u n = ground (arith, check_nickname-add us u n)

Distinct-add : (us : List User) (u : User) → Free us u → Distinct us → Distinct (add us u)
unfolding check_nickname add
Distinct-add [] u free h = (refl, tt)
Distinct-add (v ∷ us) u free h =
    let e = check_nickname-add us u v.nickname in
    let s = bytes_eq_sym u.nickname v.nickname in
    (ground (arith, e, s, h.0), Distinct-add us u (ground arith) h.1)

check_nickname-close :
    (us : List User) (s : ℕ) (n : List ℕ)
    → check_nickname us n ≡ true
    → check_nickname (close us s) n ≡ true
unfolding check_nickname close remove
check_nickname-close [] s n h = refl
check_nickname-close (u ∷ us) s n h = ground (arith, check_nickname-close us s n)

pub close_hit :
    (u : User) (us : List User) (s : ℕ) → (u.session_id == s) ≡ true → close (u ∷ us) s ≡ us
unfolding close remove
close_hit u us s h = ground (arith, h)

pub close_miss :
    (u : User) (us : List User) (s : ℕ)
    → (u.session_id == s) ≡ false
    → close (u ∷ us) s ≡ u ∷ close us s
unfolding close remove
close_miss u us s h = ground (arith, h)

close_none : (s : ℕ) → Distinct (close [] s)
unfolding close remove
close_none s = tt

Distinct-close : (us : List User) (s : ℕ) → Distinct us → Distinct (close us s)
Distinct-close [] s h = close_none s
Distinct-close (u ∷ us) s h = elim (Bool-cases (u.session_id == s)) [
  | inl same ↦ rw (close_hit u us s same) h.1
  | inr other ↦
      rw (close_miss u us s other)
        (check_nickname-close us s u.nickname h.0, Distinct-close us s h.1)
]

-- The users have distinct nicknames, and those that are to be added have free ones.
record Sound (r : Room) : Type 0 where
  distinct : Distinct r.users
  free : All (Free r.users) r.checked

All-Free-append :
    (us cs : List User) (u : User) → All (Free us) cs → Free us u → All (Free us) (cs ++ (u ∷ []))
All-Free-append us [] u h free = (free, tt)
All-Free-append us (c ∷ cs) u h free = (h.0, All-Free-append us cs u h.1 free)

All-Free-close :
    (us : List User) (s : ℕ) (cs : List User) → All (Free us) cs → All (Free (close us s)) cs
All-Free-close us s [] h = tt
All-Free-close us s (c ∷ cs) h =
    (check_nickname-close us s c.nickname h.0, All-Free-close us s cs h.1)

-- Of fewer than two there is none before the one and none behind it.
Sound-adds :
    (us cs earlier later : List User) (u : User)
    → cs ≡ earlier ++ (u ∷ later)
    → length cs < 2
    → Distinct us
    → All (Free us) cs
    → Sound (record { users = add us u; checked = earlier ++ later })
Sound-adds us cs [] [] u e few h free =
    let found : All (Free us) (u ∷ []) = rw e at free in
    record { distinct = Distinct-add us u found.0 h; free = tt }
Sound-adds us cs [] (v ∷ later) u e few h free = absurd (omega (arith, ap length e))
Sound-adds us cs (v ∷ earlier) later u e few h free =
    absurd (omega (arith, ap length e, length-append earlier (u ∷ later)))

Sound-Step : (r r' : Room) → Step r r' → length r.checked < 2 → Sound r → Sound r'
Sound-Step r _ (checks u free) few h = record {
  distinct = h.distinct;
  free = All-Free-append r.users r.checked u h.free free;
}
Sound-Step r _ (refuses u taken) few h = h
Sound-Step r _ (adds u earlier later e) few h =
    Sound-adds r.users r.checked earlier later u e few h.distinct h.free
Sound-Step r _ (closes s) few h = record {
  distinct = Distinct-close r.users s h.distinct;
  free = All-Free-close r.users s r.checked h.free;
}

few_checked : (r : Room) → Steps 1 empty_room r → length r.checked < 2
few_checked _ start = omega arith
few_checked _ (next before step few) = few

Sound-Steps : (r : Room) → Steps 1 empty_room r → Sound r
Sound-Steps _ start = record { distinct = tt; free = tt }
Sound-Steps _ (next {r'} before step few) =
    Sound-Step r' _ step (few_checked r' before) (Sound-Steps r' before)

-- While no login starts between the two calls of another one, no two users have the same nickname,
-- after any calls of `login` and `close` by any sessions. Other calls may come between.
pub one_login_at_a_time-Distinct : (r : Room) → Steps 1 empty_room r → Distinct r.users
one_login_at_a_time-Distinct r h = (Sound-Steps r h).distinct
