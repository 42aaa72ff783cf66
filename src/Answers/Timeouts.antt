-- ===== src/Answers/Timeouts.antt =====
-- Failing a list of serials: what is left pending, and who is told.
use rust_netx.Prelude.{
  ℕ, ◌≡◌, refl, Bool, true, none, some, List, [], ◌∷◌, ◌++◌, arith, ◌⊎◌, inl, inr, ◌==◌,
  if◌then◌else◌, Bool-cases, Option-cases, mem_key,
}
use rust_netx.Prelude.Dict.{Dict, lookup, lookup-remove}
use rust_netx.Wire.{err, serial_time_out}
use rust_netx.Answers.{Event, deliver, Sent, fail_one, fail_all, IsTimeout}

-- What failed serials leave of the dictionary.
pub fail_one-dict :
    (rx : ℕ → Bool) (d : Dict ℕ) (k j : ℕ)
    → lookup j (fail_one rx k d).0 ≡ (if k == j then none else lookup j d)
unfolding fail_one
fail_one-dict rx d k j = elim (Option-cases (lookup k d)) [
  | inl n ↦ rw n (ground (arith, n))
  | inr (c, s) ↦ rw s (lookup-remove k j d)
]

pub fail_all-dict :
    (rx : ℕ → Bool) (ks : List ℕ) (d : Dict ℕ) (j : ℕ)
    → lookup j (fail_all rx ks d).0 ≡ (if mem_key j ks then none else lookup j d)
unfolding fail_all
fail_all-dict rx [] d j = refl
fail_all-dict rx (k ∷ ks) d j =
    let d' = (fail_one rx k d).0 in ground (arith, fail_all-dict rx ks d' j, fail_one-dict rx d k j)

Sent-append_left : (e : Event) (xs ys : List Event) → Sent e xs → Sent e (xs ++ ys)
Sent-append_left e [] ys h = absurd h
Sent-append_left e (x ∷ xs) ys (inl h) = inl h
Sent-append_left e (x ∷ xs) ys (inr h) = inr (Sent-append_left e xs ys h)

Sent-append_right : (e : Event) (xs ys : List Event) → Sent e ys → Sent e (xs ++ ys)
Sent-append_right e [] ys h = h
Sent-append_right e (x ∷ xs) ys h = inr (Sent-append_right e xs ys h)

pub Sent-append_cases : (e : Event) (xs ys : List Event) → Sent e (xs ++ ys) → Sent e xs ⊎ Sent e ys
Sent-append_cases e [] ys h = inr h
Sent-append_cases e (x ∷ xs) ys (inl h) = inl (inl h)
Sent-append_cases e (x ∷ xs) ys (inr h) = elim (Sent-append_cases e xs ys h) [
  | inl a ↦ inl (inr a)
  | inr b ↦ inr b
]

fail_one-Sent :
    (rx : ℕ → Bool) (d : Dict ℕ) (k c : ℕ)
    → lookup k d ≡ some c
    → rx c ≡ true
    → Sent (deliver c (err (serial_time_out k))) (fail_one rx k d).1
unfolding fail_one
fail_one-Sent rx d k c h o = rw (h, o) (inl refl)

pub fail_all-Sent :
    (rx : ℕ → Bool) (ks : List ℕ) (d : Dict ℕ) (k c : ℕ)
    → mem_key k ks ≡ true
    → lookup k d ≡ some c
    → rx c ≡ true
    → Sent (deliver c (err (serial_time_out k))) (fail_all rx ks d).1
unfolding fail_all
fail_all-Sent rx [] d k c m h o = cc
fail_all-Sent rx (j ∷ ks) d k c m h o = elim (Bool-cases (j == k)) [
  | inl same ↦
      let e : j ≡ k = ground arith in
      Sent-append_left _ (fail_one rx j d).1 _ (rw e (fail_one-Sent rx d k c h o))
  | inr other ↦
      let d' = (fail_one rx j d).0 in
      Sent-append_right _ (fail_one rx j d).1 _
        (fail_all-Sent rx ks d' k c (ground arith) (rw (fail_one-dict rx d j k, other) h) o)
]

fail_one-IsTimeout :
    (rx : ℕ → Bool) (d : Dict ℕ) (k : ℕ) (ks : List ℕ) (e : Event)
    → Sent e (fail_one rx k d).1
    → IsTimeout rx (k ∷ ks) d e
unfolding fail_one
fail_one-IsTimeout rx d k ks e s = elim (Option-cases (lookup k d)) [
  | inl n ↦ absurd (rw n at s)
  | inr (c, h) ↦ elim (Bool-cases (rx c)) [
    | inl o ↦ elim (rw (h, o) at s) [ inl p ↦ (k, c, ground arith, h, o, p) | inr bad ↦ absurd bad ]
    | inr shut ↦ absurd (rw (h, shut) at s)
  ]
]

pub fail_all-IsTimeout :
    (rx : ℕ → Bool) (ks : List ℕ) (d : Dict ℕ) (e : Event)
    → Sent e (fail_all rx ks d).1
    → IsTimeout rx ks d e
unfolding fail_all
fail_all-IsTimeout rx [] d e s = absurd s
fail_all-IsTimeout rx (j ∷ ks) d e s = elim (Sent-append_cases e (fail_one rx j d).1 _ s) [
  | inl a ↦ fail_one-IsTimeout rx d j ks e a
  | inr b ↦
      let d' = (fail_one rx j d).0 in
      let (k, c, m, h, o, p) = fail_all-IsTimeout rx ks d' e b in
      let d = fail_one-dict rx d j k in (k, c, ground arith, ground arith, o, p)
]
