-- ===== src/Prelude/Map.antt =====
-- `HashMap` with hashes for keys: an association list in which a key stands once. The order of the
-- list is the order of iteration.
use magma_sidecar.Prelude.Tests.{if◌then◌else◌, ◌==◌, ==_iff, Bool-cases}
use magma_sidecar.Prelude.Lists.{length, retain}
use Prim.Native.Nat.{ℕ, suc, ◌≤◌}
use mathlib.Core.Path.{◌≡◌, refl, subst₂}
use mathlib.Core.Logic.{inl, inr}
use mathlib.Core.Bool.{Bool, true, false}
use mathlib.Core.List.{List, [], ◌∷◌}
use mathlib.Core.Option.{Option, none, some, some-injective}
use native.Mathlib.Omega.{arith}

abbrev pub HashMap {ℓ} : Type ℓ → Type ℓ
HashMap V = List (ℕ × V)

module _ {ℓ} {V : Type ℓ} where
  abbrev pub get : ℕ → HashMap V → Option V
  get k [] = none
  get k ((j, v) ∷ m) = if j == k then some v else get k m

  abbrev pub contains_key : ℕ → HashMap V → Bool
  contains_key k [] = false
  contains_key k ((j, v) ∷ m) = if j == k then true else contains_key k m

  -- A new key goes to the end.
  abbrev pub insert : ℕ → V → HashMap V → HashMap V
  insert k v [] = (k, v) ∷ []
  insert k v ((j, w) ∷ m) = if j == k then (k, v) ∷ m else (j, w) ∷ insert k v m

  abbrev pub remove : ℕ → HashMap V → HashMap V
  remove k [] = []
  remove k ((j, v) ∷ m) = if j == k then remove k m else (j, v) ∷ remove k m

  -- Every key stands once.
  abbrev pub Distinct : HashMap V → Type ℓ
  Distinct [] = Unit
  Distinct ((j, v) ∷ m) = (get j m ≡ none) × Distinct m

  pub get-insert :
      (k j : ℕ) (v : V) (m : HashMap V)
      → get j (insert k v m) ≡ (if k == j then some v else get j m)
  get-insert k j v [] = refl
  get-insert k j v ((i, w) ∷ m) = ground (arith, get-insert k j v m)

  pub get-insert_self : (k : ℕ) (v : V) (m : HashMap V) → get k (insert k v m) ≡ some v
  get-insert_self k v m = ground (arith, get-insert k k v m)

  pub get-remove :
      (k j : ℕ) (m : HashMap V) → get j (remove k m) ≡ (if k == j then none else get j m)
  get-remove k j [] = ground arith
  get-remove k j ((i, w) ∷ m) = ground (arith, get-remove k j m)

  pub contains_key-insert :
      (k j : ℕ) (v : V) (m : HashMap V)
      → contains_key j (insert k v m) ≡ (if k == j then true else contains_key j m)
  contains_key-insert k j v [] = refl
  contains_key-insert k j v ((i, w) ∷ m) = ground (arith, contains_key-insert k j v m)

  pub contains_key-remove :
      (k j : ℕ) (m : HashMap V)
      → contains_key j (remove k m) ≡ (if k == j then false else contains_key j m)
  contains_key-remove k j [] = ground arith
  contains_key-remove k j ((i, w) ∷ m) = ground (arith, contains_key-remove k j m)

  pub contains_key_of_get :
      (k : ℕ) (v : V) (m : HashMap V) → get k m ≡ some v → contains_key k m ≡ true
  contains_key_of_get k v [] h = absurd (ground arith)
  contains_key_of_get k v ((j, w) ∷ m) h = ground (arith, contains_key_of_get k v m)

  pub not-contains_key_of_get : (k : ℕ) (m : HashMap V) → get k m ≡ none → contains_key k m ≡ false
  not-contains_key_of_get k [] h = refl
  not-contains_key_of_get k ((j, w) ∷ m) h = ground (arith, not-contains_key_of_get k m)

  pub insert-Distinct : (k : ℕ) (v : V) (m : HashMap V) → Distinct m → Distinct (insert k v m)
  insert-Distinct k v [] d = (refl, tt)
  insert-Distinct k v ((j, w) ∷ m) d = ground (arith, insert-Distinct k v m d.1, get-insert k j v m)

  pub remove-Distinct : (k : ℕ) (m : HashMap V) → Distinct m → Distinct (remove k m)
  remove-Distinct k [] d = tt
  remove-Distinct k ((j, w) ∷ m) d = ground (arith, remove-Distinct k m d.1, get-remove k j m)

  pub remove_absent : (k : ℕ) (m : HashMap V) → get k m ≡ none → remove k m ≡ m
  remove_absent k [] h = refl
  remove_absent k ((j, w) ∷ m) h = ground (arith, remove_absent k m)

  pub length-insert :
      (k : ℕ) (v : V) (m : HashMap V)
      → length (insert k v m) ≡ (if contains_key k m then length m else suc (length m))
  length-insert k v [] = refl
  length-insert k v ((j, w) ∷ m) = ground (arith, length-insert k v m)

  pub length-remove :
      (k : ℕ) (m : HashMap V)
      → Distinct m
      → contains_key k m ≡ true
      → suc (length (remove k m)) ≡ length m
  length-remove k [] d h = absurd (ground arith)
  length-remove k ((j, w) ∷ m) d h = elim (Bool-cases (j == k)) [
    | inl same ↦ let e : j ≡ k = (==_iff j k).0 same in ground (arith, remove_absent k m, d.0, e)
    | inr other ↦ ground (arith, length-remove k m d.1)
  ]

  pub length-remove-le : (k : ℕ) (m : HashMap V) → length (remove k m) ≤ length m
  length-remove-le k [] = omega arith
  length-remove-le k ((j, w) ∷ m) = ground (arith, length-remove-le k m)

  -- A map in which no key is found is empty.
  pub eq-nil_of_get : (m : HashMap V) → ((k : ℕ) → contains_key k m ≡ false) → m ≡ []
  eq-nil_of_get [] h = refl
  eq-nil_of_get ((j, w) ∷ m) h = absurd (ground (arith, h j))

  -- A map with at most one key has at most one entry.
  pub length_of_one_key :
      (k : ℕ) (m : HashMap V)
      → Distinct m
      → ((j : ℕ) → contains_key j m ≡ true → j ≡ k)
      → length m ≤ 1
  length_of_one_key k [] d h = omega arith
  length_of_one_key k ((j, v) ∷ []) d h = omega arith
  length_of_one_key k ((j, v) ∷ (i, w) ∷ m) d h = absurd (ground (arith, h j, h i))

-- A predicate at every entry.
abbrev pub Every {ℓ κ} : {V : Type ℓ} → (ℕ → V → Type κ) → HashMap V → Type κ
Every P [] = Unit
Every P ((k, v) ∷ m) = P k v × Every P m

module _ {ℓ κ} {V : Type ℓ} (P : ℕ → V → Type κ) where
  pub Every-get : (k : ℕ) (v : V) (m : HashMap V) → Every P m → get k m ≡ some v → P k v
  Every-get k v [] h e = absurd (ground arith)
  Every-get k v ((j, w) ∷ m) h e = elim (Bool-cases (j == k)) [
    | inl same ↦ subst₂ P ((==_iff j k).0 same) (some-injective w v (rw same at e)) h.0
    | inr other ↦ Every-get k v m h.1 (rw other at e)
  ]

  pub Every-remove : (k : ℕ) (m : HashMap V) → Every P m → Every P (remove k m)
  Every-remove k [] h = tt
  Every-remove k ((j, w) ∷ m) h = elim (Bool-cases (j == k)) [
    | inl same ↦ rw same (Every-remove k m h.1)
    | inr other ↦ rw other (h.0, Every-remove k m h.1)
  ]

  pub Every-insert : (k : ℕ) (v : V) (m : HashMap V) → P k v → Every P m → Every P (insert k v m)
  Every-insert k v [] p h = (p, tt)
  Every-insert k v ((j, w) ∷ m) p h = elim (Bool-cases (j == k)) [
    | inl same ↦ rw same (p, h.1)
    | inr other ↦ rw other (h.0, Every-insert k v m p h.1)
  ]

  pub Every-retain : (keep : ℕ × V → Bool) (m : HashMap V) → Every P m → Every P (retain keep m)
  Every-retain keep [] h = tt
  Every-retain keep ((j, w) ∷ m) h = elim (Bool-cases (keep (j, w))) [
    | inl kept ↦ rw kept (h.0, Every-retain keep m h.1)
    | inr lost ↦ rw lost (Every-retain keep m h.1)
  ]
