-- ===== src/Wire/LittleEndian.antt =====
-- A byte layout that has the documented behaviour: little-endian numbers, one byte for a truth
-- value, and a length before each text.
use rust_netx.Prelude.{
  ℕ, zero, suc, ◌+◌, ◌*◌, ◌/◌, ◌%◌, ◌^◌, ◌<◌, ◌≡◌, refl, ap, ◌∙◌, Bool, true, false, ◌==◌, Option,
  none, some, List, [], ◌∷◌, ◌++◌, arith, Option-cases, inl, inr, append_assoc, length,
}
use native.Mathlib.Nat.{pow-suc}
use rust_netx.Wire.Defs.{Wire, ok}
use rust_netx.Wire.Frame.{read_exact}
use rust_netx.Wire.Frame.Laws.{read_exact-append}

unfoldable pub le : ℕ → ℕ → List ℕ
le zero x = []
le (suc n) x = (x % 256) ∷ le n (x / 256)

abbrev add_low : ℕ → Option (ℕ × List ℕ) → Option (ℕ × List ℕ)
add_low b none = none
add_low b (some (x, rest)) = some (b + 256 * x, rest)

unfoldable pub read_le : ℕ → List ℕ → Option (ℕ × List ℕ)
read_le zero s = some (0, s)
read_le (suc n) [] = none
read_le (suc n) (b ∷ s) = add_low b (read_le n s)

pub length-le : (n x : ℕ) → length (le n x) ≡ n
unfolding le
length-le zero x = refl
length-le (suc n) x = ap suc (length-le n (x / 256))

div_below : (n x : ℕ) → x < 256 ^ suc n → x / 256 < 256 ^ n
div_below n x h = omega (arith, pow-suc 256 n)

pub read_le-le :
    (n x : ℕ) (rest : List ℕ) → x < 256 ^ n → read_le n (le n x ++ rest) ≡ some (x, rest)
unfolding le read_le
read_le-le zero x rest h = ground arith
read_le-le (suc n) x rest h = rw (read_le-le n (x / 256) rest (div_below n x h)) (ground arith)

rest_of :
    (b y x : ℕ) {r rest : List ℕ}
    → ◌≡◌ {A = Option (ℕ × List ℕ)} (some (b + 256 * y, r)) (some (x, rest))
    → r ≡ rest
rest_of b y x h = cc

pub read_le_takes :
    (n : ℕ) (s rest : List ℕ) (x : ℕ) → read_le n s ≡ some (x, rest) → length s ≡ n + length rest
unfolding read_le
read_le_takes zero s rest x h = ground arith
read_le_takes (suc n) [] rest x h = cc
read_le_takes (suc n) (b ∷ s) rest x h = elim (Option-cases (read_le n s)) [
  | inl e ↦ cc (rw e at h)
  | inr ((y, r), e) ↦ omega (arith, read_le_takes n s r y e, ap length (rest_of b y x (rw e at h)))
]

unfoldable pub sized : Option (ℕ × List ℕ) → Option (List ℕ × List ℕ)
unfolding read_exact
sized none = none
sized (some (n, s)) = elim (read_exact n s) [ ok p ↦ some p | _ ↦ none ]

unfoldable pub split_bytes : List ℕ → Option (List ℕ × List ℕ)
unfolding sized read_le
split_bytes s = sized (read_le 4 s)

unfoldable pub write_sized : List ℕ → List ℕ
unfolding le
write_sized s = le 4 (length s) ++ s

pub split-write :
    (s rest : List ℕ) → length s < 2 ^ 32 → split_bytes (write_sized s ++ rest) ≡ some (s, rest)
unfolding split_bytes write_sized sized
split-write s rest h =
    ap sized (
      ap (read_le 4) (append_assoc (le 4 (length s)) s rest)
      ∙ read_le-le 4 (length s) (s ++ rest) h)
    ∙ rw (read_exact-append s rest, sized) refl

unfoldable pub write_flag : Bool → List ℕ
write_flag true = 1 ∷ []
write_flag false = 0 ∷ []

unfoldable pub read_flag : List ℕ → Option (Bool × List ℕ)
read_flag [] = none
read_flag (b ∷ s) = some (b == 1, s)

pub read-write_flag : (b : Bool) (rest : List ℕ) → read_flag (write_flag b ++ rest) ≡ some (b, rest)
unfolding write_flag read_flag
read-write_flag true rest = refl
read-write_flag false rest = refl

pub write_sized_layout : (s : List ℕ) → length s < 2 ^ 32 → write_sized s ≡ le 4 (length s) ++ s
unfolding write_sized
write_sized_layout s h = refl

pub length-write_flag : (b : Bool) → length (write_flag b) ≡ 1
unfolding write_flag
length-write_flag true = refl
length-write_flag false = refl

abbrev pub plain : Wire
plain = record {
  int = le;
  read_int = read_le;
  length-int = length-le;
  read_int-int = read_le-le;
  read_int_takes = read_le_takes;
  write_bool = write_flag;
  read_bool = read_flag;
  length-write_bool = length-write_flag;
  read_bool-write_bool = read-write_flag;
  write_bytes = write_sized;
  write_bytes_layout = write_sized_layout;
  read_buf = split_bytes;
  read_buf-write_bytes = split-write;
  is_utf8 = λ s. true;
  is_utf8_ascii = λ s h. refl;
  read_str = split_bytes;
  read_str-write_bytes = λ s rest u h. split-write s rest h;
  from_utf8_lossy = λ s. s;
  from_utf8_lossy_lem = λ s u. refl;
}
