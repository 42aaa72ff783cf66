-- ===== src/RetResult/Access.antt =====
-- Access to the arguments of a result of netx_server/src/server/result.rs.
use rust_netx.Prelude.{
  ℕ, zero, suc, if◌then◌else◌, ltb, leb, ◌↔◌, true, false, Bool-cases, inl, inr, ◌≤◌, ◌<◌, ◌≡◌,
  refl, List, [], ◌∷◌, some, none, arith, length, get_elem?,
}
use rust_netx.Wire.{err, panic, io_error}
use rust_netx.RetResult.{RetResult, len, get, index}

get_elem?_in {ℓ} :
    {A : Type ℓ} (xs : List A) (i : ℕ) → i < length xs → (a : A) × (get_elem? xs i ≡ some a)
get_elem?_in [] i h = absurd (omega arith)
get_elem?_in (x ∷ xs) zero h = (x, refl)
get_elem?_in (x ∷ xs) (suc i) h = get_elem?_in xs i (omega arith)

get_elem?_out {ℓ} : {A : Type ℓ} (xs : List A) (i : ℕ) → length xs ≤ i → get_elem? xs i ≡ none
get_elem?_out [] i h = refl
get_elem?_out (x ∷ xs) zero h = absurd (omega arith)
get_elem?_out (x ∷ xs) (suc i) h = get_elem?_out xs i (omega arith)

-- `get` is `[]` in range and an io error out of range, and `[]` panics exactly out of range.
pub get_range :
    (r : RetResult) (i : ℕ)
    → (get r i ≡ (if ltb i (len r) then index r i else err io_error))
      × ((index r i ≡ panic) ↔ (len r ≤ i))
unfolding get len index
get_range r i = elim (Bool-cases (ltb i (length r.arguments))) [
  | inl inside ↦
      let (a, e) = get_elem?_in r.arguments i (ground arith) in
      let le : leb (length r.arguments) i ≡ false = ground arith in
      rw (le, inside, e, index) (refl, ((λ h. cc), (λ h. absurd (ground arith))))
  | inr outside ↦
      let le : leb (length r.arguments) i ≡ true = ground arith in
      let e = get_elem?_out r.arguments i (ground arith) in
      rw (le, outside, e, index) (refl, ((λ h. ground arith), (λ h. refl)))
]
