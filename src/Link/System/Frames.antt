-- ===== src/Link/System/Frames.antt =====
-- Streams of whole frames: what is sent goes to the end, and a read takes the first frame.
use rust_netx.Prelude.{
  ℕ, ◌+◌, ◌<◌, ◌%◌, ◌^◌, ◌≡◌, refl, Bool, some, List, [], ◌∷◌, ◌++◌, arith, length, map, All, count,
  if◌then◌else◌, ◌==◌, append_assoc, append-nil,
}
use rust_netx.Wire.{Wire, Reader, reader, Result, ok}
use rust_netx.Wire.Frame.{frame, frames, read_buff}
use rust_netx.Wire.Frame.Laws.{read_buff-frame, read_int_end, sub_u32_four, read_exact-append}
use rust_netx.Server.Commands.{read_buff_end}
use rust_netx.Client.Stream

abbrev pub Short : List ℕ → Type 0
Short body = length body + 4 < 2 ^ 32

module _ (w : Wire) (rx : ℕ → Bool) (send_all : Result (Unit {0})) (overflow : Bool) where
  pub frames-append :
      (bodies : List (List ℕ)) (body : List ℕ)
      → frames w (bodies ++ (body ∷ [])) ≡ frames w bodies ++ frame w body
  frames-append [] body = append-nil (frame w body)
  frames-append (b ∷ bodies) body =
      rw (frames-append bodies body, append_assoc (frame w b) (frames w bodies) (frame w body)) refl

  -- The server's read, and the client's.
  pub read_buff-frames :
      (bodies : List (List ℕ)) (dr : Reader) (rest : List ℕ)
      → All Short bodies
      → read_buff w overflow (frames w bodies) ≡ ok (dr, rest)
      → (body : List ℕ) × (behind : List (List ℕ)) × (bodies ≡ body ∷ behind)
        × (dr ≡ reader body)
        × (rest ≡ frames w behind)
  read_buff-frames [] dr rest short h = absurd (cc (h, read_buff_end w rx send_all overflow))
  read_buff-frames (b ∷ bodies) dr rest short h =
      let e = read_buff-frame w overflow b (frames w bodies) short.0 in
      (b, bodies, refl, cc (h, e), cc (h, e))

  pub read_message-frame :
      (body rest : List ℕ)
      → Short body
      → (w.read_int 4 (frame w body ++ rest) ≡ some (length body + 4, body ++ rest))
        × (Stream.read_message w rx send_all overflow (length body + 4, body ++ rest)
            ≡ ok (reader body, rest))
  unfolding frame
  read_message-frame body rest h =
      let n = (length body + 4) % 2 ^ 32 in
      let e : n ≡ length body + 4 = omega arith in
      (
        rw (append_assoc (w.int 4 n) body rest, e)
            (w.read_int-int 4 (length body + 4) (body ++ rest) h),
        rw (sub_u32_four overflow (length body), read_exact-append body rest) refl,
      )

  pub read_message-frames :
      (bodies : List (List ℕ)) (n : ℕ) (from : List ℕ) (dr : Reader) (rest : List ℕ)
      → All Short bodies
      → w.read_int 4 (frames w bodies) ≡ some (n, from)
      → Stream.read_message w rx send_all overflow (n, from) ≡ ok (dr, rest)
      → (body : List ℕ) × (behind : List (List ℕ)) × (bodies ≡ body ∷ behind)
        × (dr ≡ reader body)
        × (rest ≡ frames w behind)
  read_message-frames [] n from dr rest short h k = absurd (cc (h, read_int_end w))
  read_message-frames (b ∷ bodies) n from dr rest short h k =
      let (e, e') = read_message-frame b (frames w bodies) short.0 in
      let len : n ≡ length b + 4 = cc (h, e) in
      let body : from ≡ b ++ frames w bodies = cc (h, e) in
      let k' = rw (len, body) at k in (b, bodies, refl, cc e', cc e')

-- A list that is made by a function, taken apart.
pub map-append_cases {ℓ κ} :
    {A : Type ℓ} {B : Type κ} (f : A → B) (xs : List A) (before : List B) (y : B) (behind : List B)
    → map f xs ≡ before ++ (y ∷ behind)
    → (ps : List A) × (x : A) × (qs : List A) × (xs ≡ ps ++ (x ∷ qs))
      × (map f ps ≡ before)
      × (f x ≡ y)
      × (map f qs ≡ behind)
map-append_cases f [] [] y behind h = absurd (cc h)
map-append_cases f [] (b ∷ before) y behind h = absurd (cc h)
map-append_cases f (x ∷ xs) [] y behind h = ([], x, xs, refl, refl, cc h, cc h)
map-append_cases f (x ∷ xs) (b ∷ before) y behind h =
    let (ps, z, qs, e, e1, e2, e3) = map-append_cases f xs before y behind (cc h) in
    (x ∷ ps, z, qs, cc e, cc (h, e1), e2, e3)

-- The first of a list that is made by a function, with a predicate on what it is made from.
pub map-first {ℓ κ ι} :
    {A : Type ℓ} {B : Type κ} {P : A → Type ι} (f : A → B) (xs : List A) (y : B) (ys : List B)
    → All P xs
    → map f xs ≡ y ∷ ys
    → (x : A) × (behind : List A) × (xs ≡ x ∷ behind)
      × P x
      × All P behind
      × (y ≡ f x)
      × (ys ≡ map f behind)
map-first f [] y ys h e = absurd (cc e)
map-first f (x ∷ xs) y ys h e = (x, xs, refl, h.0, h.1, cc e, cc e)

-- A predicate on all of a list and one of its elements.
pub All-append {ℓ κ} :
    {A : Type ℓ} (P : A → Type κ) (xs : List A) (y : A) → All P xs → P y → All P (xs ++ (y ∷ []))
All-append P [] y h p = (p, tt)
All-append P (x ∷ xs) y h p = (h.0, All-append P xs y h.1 p)

pub All-without {ℓ κ} :
    {A : Type ℓ} (P : A → Type κ) (xs : List A) (y : A) (ys : List A)
    → All P (xs ++ (y ∷ ys))
    → P y × All P (xs ++ ys)
All-without P [] y ys h = h
All-without P (x ∷ xs) y ys h = let (p, rest) = All-without P xs y ys h.1 in (p, (h.0, rest))

pub All-mono {ℓ κ ι} :
    {A : Type ℓ} {P : A → Type κ} {Q : A → Type ι} (xs : List A)
    → ((x : A) → P x → Q x)
    → All P xs
    → All Q xs
All-mono [] f h = tt
All-mono (x ∷ xs) f h = (f x h.0, All-mono xs f h.1)

pub map-append {ℓ κ} :
    {A : Type ℓ} {B : Type κ} (f : A → B) (xs ys : List A) → map f (xs ++ ys) ≡ map f xs ++ map f ys
map-append f [] ys = refl
map-append f (x ∷ xs) ys = rw (map-append f xs ys)

pub count-without :
    (k : ℕ) (xs : List ℕ) (y : ℕ) (ys : List ℕ)
    → count k (xs ++ (y ∷ ys)) ≡ (if y == k then 1 else 0) + count k (xs ++ ys)
count-without k [] y ys = refl
count-without k (x ∷ xs) y ys = omega (arith, count-without k xs y ys)
