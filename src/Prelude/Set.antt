-- ===== src/Prelude/Set.antt =====
-- `HashSet` of hashes, as a list.
use magma_sidecar.Prelude.Tests.{if◌then◌else◌, ◌==◌}
use magma_sidecar.Prelude.Lists.{contains}
use Prim.Native.Nat.{ℕ}
use mathlib.Core.Path.{◌≡◌, refl}
use mathlib.Core.Bool.{true, false}
use mathlib.Core.List.{List, [], ◌∷◌, ◌++◌}
use native.Mathlib.Omega.{arith}

abbrev pub insert : ℕ → List ℕ → List ℕ
insert k s = if contains k s then s else k ∷ s

abbrev pub remove : ℕ → List ℕ → List ℕ
remove k [] = []
remove k (x ∷ s) = if x == k then remove k s else x ∷ remove k s

pub contains-remove :
    (k j : ℕ) (s : List ℕ) → contains j (remove k s) ≡ (if k == j then false else contains j s)
contains-remove k j [] = ground arith
contains-remove k j (x ∷ s) = ground (arith, contains-remove k j s)

pub contains-append :
    (k : ℕ) (xs ys : List ℕ)
    → contains k (xs ++ ys) ≡ (if contains k xs then true else contains k ys)
contains-append k [] ys = refl
contains-append k (x ∷ xs) ys = ground (arith, contains-append k xs ys)
