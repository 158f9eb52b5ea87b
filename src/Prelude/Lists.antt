-- ===== src/Prelude/Lists.antt =====
-- Lists measured by native numbers, under the library's names, and the vector operations that the
-- code uses: `iter().position`, `Vec::remove` and membership in a queue.
use Prim.Native.Nat.{ℕ, zero, suc, ◌+◌}
use mathlib.Core.Path.{◌≡◌, refl, ap}
use mathlib.Core.Logic.{inl, inr}
use mathlib.Core.Bool.{Bool, true, false}
use mathlib.Core.List.{List, [], ◌∷◌, ◌++◌}
use mathlib.Core.Option.{Option, none, some}
use native.Mathlib.Omega.{arith}
use magma_sidecar.Prelude.Tests.{if◌then◌else◌, ◌==◌, Bool-cases}

module _ {ℓ} {A : Type ℓ} where
  abbrev pub length : List A → ℕ
  length [] = 0
  length (x ∷ xs) = suc (length xs)

  pub length-append : (xs ys : List A) → length (xs ++ ys) ≡ length xs + length ys
  length-append [] ys = omega arith
  length-append (x ∷ xs) ys = omega (arith, length-append xs ys)

  -- `retain`.
  abbrev pub retain : (A → Bool) → List A → List A
  retain keep [] = []
  retain keep (x ∷ xs) = if keep x then x ∷ retain keep xs else retain keep xs

  -- `Vec::remove`; out of range it leaves the list alone (the code calls it in range only).
  abbrev pub remove_at : ℕ → List A → List A
  remove_at i [] = []
  remove_at zero (x ∷ xs) = xs
  remove_at (suc i) (x ∷ xs) = x ∷ remove_at i xs

  -- `iter().position(test)`, with the element that stands there.
  abbrev pub position_from : ℕ → (A → Bool) → List A → Option (ℕ × A)
  position_from i test [] = none
  position_from i test (x ∷ xs) = if test x then some (i, x) else position_from (suc i) test xs

  abbrev pub position : (A → Bool) → List A → Option (ℕ × A)
  position test xs = position_from 0 test xs

-- `contains` on a queue of hashes.
abbrev pub contains : ℕ → List ℕ → Bool
contains k [] = false
contains k (x ∷ xs) = if x == k then true else contains k xs

module _ {ℓ} {A : Type ℓ} where
  abbrev pub take : ℕ → List A → List A
  take zero xs = []
  take (suc n) [] = []
  take (suc n) (x ∷ xs) = x ∷ take n xs

  abbrev pub drop : ℕ → List A → List A
  drop zero xs = xs
  drop (suc n) [] = []
  drop (suc n) (x ∷ xs) = drop n xs

-- Equality of byte strings.
abbrev pub bytes_eq : List ℕ → List ℕ → Bool
bytes_eq [] [] = true
bytes_eq [] (y ∷ ys) = false
bytes_eq (x ∷ xs) [] = false
bytes_eq (x ∷ xs) (y ∷ ys) = if x == y then bytes_eq xs ys else false

pub bytes_eq→eq : (xs ys : List ℕ) → bytes_eq xs ys ≡ true → xs ≡ ys
bytes_eq→eq [] [] h = refl
bytes_eq→eq [] (y ∷ ys) h = cc
bytes_eq→eq (x ∷ xs) [] h = cc
bytes_eq→eq (x ∷ xs) (y ∷ ys) h = ground (arith, bytes_eq→eq xs ys)

pub bytes_eq_refl : (xs : List ℕ) → bytes_eq xs xs ≡ true
bytes_eq_refl [] = refl
bytes_eq_refl (x ∷ xs) = ground (arith, bytes_eq_refl xs)

module _ {ℓ} {A : Type ℓ} where
  pub take-append-drop : (n : ℕ) (xs : List A) → take n xs ++ drop n xs ≡ xs
  take-append-drop zero xs = refl
  take-append-drop (suc n) [] = refl
  take-append-drop (suc n) (x ∷ xs) = ap (◌∷◌ x) (take-append-drop n xs)

  pub take-append : (xs ys : List A) → take (length xs) (xs ++ ys) ≡ xs
  take-append [] ys = refl
  take-append (x ∷ xs) ys = ap (◌∷◌ x) (take-append xs ys)

  pub drop-append : (xs ys : List A) → drop (length xs) (xs ++ ys) ≡ ys
  drop-append [] ys = refl
  drop-append (x ∷ xs) ys = drop-append xs ys

module _ {ℓ} {A : Type ℓ} where
  remove_at-append :
      (xs : List A) (x : A) (ys : List A) → remove_at (length xs) (xs ++ x ∷ ys) ≡ xs ++ ys
  remove_at-append [] x ys = refl
  remove_at-append (y ∷ xs) x ys = ap (◌∷◌ y) (remove_at-append xs x ys)

  position_from_split :
      (i : ℕ) (test : A → Bool) (xs : List A) (pos : ℕ) (x : A)
      → position_from i test xs ≡ some (pos, x)
      → (front : List A) × (back : List A) × (xs ≡ front ++ x ∷ back)
        × (pos ≡ i + length front)
        × (test x ≡ true)
  position_from_split i test [] pos x h = absurd (ground arith)
  position_from_split i test (y ∷ xs) pos x h = elim (Bool-cases (test y)) [
    | inl passes ↦ ([], xs, ground arith, ground arith, ground arith)
    | inr fails ↦
        let (front, back, split, place, passes) =
          position_from_split (suc i) test xs pos x (ground arith) in
        (y ∷ front, back, ap (◌∷◌ y) split, omega arith, passes)
  ]

  -- `position` finds an element that passes the test, and `remove_at` takes just that one out.
  pub position-split :
      (test : A → Bool) (xs : List A) (pos : ℕ) (x : A)
      → position test xs ≡ some (pos, x)
      → (front : List A) × (back : List A) × (xs ≡ front ++ x ∷ back)
        × (remove_at pos xs ≡ front ++ back)
        × (test x ≡ true)
  position-split test xs pos x h =
      let (front, back, split, place, passes) = position_from_split 0 test xs pos x h in
      let here : pos ≡ length front = omega arith in
      (front, back, split, rw (split, here) (remove_at-append front x back), passes)

-- A predicate at every element.
abbrev pub All {ℓ κ} : {A : Type ℓ} → (A → Type κ) → List A → Type κ
All P [] = Unit
All P (x ∷ xs) = P x × All P xs

module _ {ℓ κ} {A : Type ℓ} (P : A → Type κ) where
  pub All-append : (xs ys : List A) → All P xs → All P ys → All P (xs ++ ys)
  All-append [] ys h k = k
  All-append (x ∷ xs) ys h k = (h.0, All-append xs ys h.1 k)

  pub All-without : (xs : List A) (x : A) (ys : List A) → All P (xs ++ x ∷ ys) → All P (xs ++ ys)
  All-without [] x ys h = h.1
  All-without (y ∷ xs) x ys h = (h.0, All-without xs x ys h.1)

  pub All-remove_at : (i : ℕ) (xs : List A) → All P xs → All P (remove_at i xs)
  All-remove_at i [] h = tt
  All-remove_at zero (x ∷ xs) h = h.1
  All-remove_at (suc i) (x ∷ xs) h = (h.0, All-remove_at i xs h.1)

pub All-map :
    {A : Type 0} (P Q : A → Type 0) (xs : List A) → ((x : A) → P x → Q x) → All P xs → All Q xs
All-map P Q [] f h = tt
All-map P Q (x ∷ xs) f h = (f x h.0, All-map P Q xs f h.1)

pub All-any : {A : Type 0} (xs : List A) → All (λ x. Unit {0}) xs
All-any [] = tt
All-any (x ∷ xs) = (tt, All-any xs)
