-- ===== src/TxpoolIpc/Sent/Refines.antt =====
-- The dedup cache of src/txpool_ipc.rs as a set of hashes.
use magma_sidecar.Prelude.{
  ℕ, ◌+◌, ◌≤◌, ◌≡◌, refl, ap, sym, subst, ◌∙◌, none, inl, inr, false, ◌==◌, max, if◌then◌else◌,
  List, [], ◌∷◌, length, contains, arith, Bool-cases,
}
use magma_sidecar.Prelude.Map
use magma_sidecar.Prelude.Map.{HashMap}
use magma_sidecar.Prelude.Set
use magma_sidecar.TxpoolIpc.Sent.{
  SentCache, new_sent, was_sent, add_sent, compact, insert_sent, remove_sent, sent_len,
}
use magma_sidecar.TxpoolIpc.Sent.Stale.{evict_sent_within}

-- What the loop does to the cache: it records a hash with its priority, or removes one.
pub data SentStep : Type 0 where
  recorded : ℕ → ℕ → SentStep
  removed : ℕ → SentStep

apply : SentStep → SentCache → SentCache
apply (recorded hash priority) s = (insert_sent hash priority s).0
apply (removed hash) s = remove_sent hash s

pub apply_all : List SentStep → SentCache → SentCache
apply_all [] s = s
apply_all (step ∷ steps) s = apply_all steps (apply step s)

-- The same steps on a set.
abbrev pub on_set : SentStep → List ℕ → List ℕ
on_set (recorded hash priority) seen = Set.insert hash seen
on_set (removed hash) seen = Set.remove hash seen

abbrev pub on_set_all : List SentStep → List ℕ → List ℕ
on_set_all [] seen = seen
on_set_all (step ∷ steps) seen = on_set_all steps (on_set step seen)

-- The set never holds more than the capacity.
abbrev pub StaysWithin : ℕ → List SentStep → List ℕ → Type 0
StaysWithin capacity [] seen = Unit
StaysWithin capacity (step ∷ steps) seen =
    (length (on_set step seen) ≤ capacity) × StaysWithin capacity steps (on_set step seen)

abbrev Unique : List ℕ → Type 0
Unique [] = Unit {0}
Unique (x ∷ seen) = (contains x seen ≡ false) × Unique seen

remove-Unique : (k : ℕ) (seen : List ℕ) → Unique seen → Unique (Set.remove k seen)
remove-Unique k [] u = tt
remove-Unique k (x ∷ seen) u =
    ground (arith, remove-Unique k seen u.1, Set.contains-remove k x seen)

insert-Unique : (k : ℕ) (seen : List ℕ) → Unique seen → Unique (Set.insert k seen)
insert-Unique k seen u = elim (Bool-cases (contains k seen)) [
  | inl held ↦ rw held u
  | inr new ↦ rw new (new, u)
]

remove_absent : (k : ℕ) (seen : List ℕ) → contains k seen ≡ false → Set.remove k seen ≡ seen
remove_absent k [] h = refl
remove_absent k (x ∷ seen) h = ground (arith, remove_absent k seen)

length-set-remove :
    (k : ℕ) (seen : List ℕ)
    → Unique seen
    → length (Set.remove k seen) + (if contains k seen then 1 else 0) ≡ length seen
length-set-remove k [] u = omega arith
length-set-remove k (x ∷ seen) u = elim (Bool-cases (x == k)) [
  | inl same ↦ ground (arith, same, remove_absent k seen, u.0)
  | inr other ↦ ground (arith, other, length-set-remove k seen u.1)
]

-- The cache and the set hold the same hashes, each once.
record Agrees (s : SentCache) (seen : List ℕ) : Type 0 where
  same : (j : ℕ) → was_sent j s ≡ contains j seen
  size : sent_len s ≡ length seen
  distinct : Map.Distinct s.priorities
  unique : Unique seen

absent_of_contains_key :
    {V : Type 0} (k : ℕ) (m : HashMap V) → Map.contains_key k m ≡ false → Map.get k m ≡ none
absent_of_contains_key k [] h = refl
absent_of_contains_key k ((j, v) ∷ m) h = ground (arith, absent_of_contains_key k m)

compact_keeps :
    (s : SentCache)
    → ((compact s).priorities ≡ s.priorities) × ((compact s).max_entries ≡ s.max_entries)
unfolding compact
compact_keeps s = ground arith

-- Recording in a cache that does not overflow.
insert_sent_within :
    (hash priority : ℕ) (s : SentCache)
    → length (Map.insert hash priority s.priorities) ≤ s.max_entries
    → ((insert_sent hash priority s).0.priorities ≡ Map.insert hash priority s.priorities)
      × ((insert_sent hash priority s).0.max_entries ≡ s.max_entries)
unfolding insert_sent add_sent
insert_sent_within hash priority s room =
    let added = compact (add_sent hash priority s) in
    let (kept, capacity) = compact_keeps (add_sent hash priority s) in
    let e = evict_sent_within added.order 0 added (omega (arith, ap length kept, capacity, room)) in
    (ap (λ r. r.0.priorities) e ∙ kept, ap (λ r. r.0.max_entries) e ∙ capacity)

recorded-Agrees :
    (hash priority : ℕ) (s : SentCache) (seen : List ℕ)
    → Agrees s seen
    → length (Set.insert hash seen) ≤ s.max_entries
    → Agrees (insert_sent hash priority s).0 (Set.insert hash seen)
      × ((insert_sent hash priority s).0.max_entries ≡ s.max_entries)
unfolding was_sent sent_len
recorded-Agrees hash priority s seen a room =
    let grown : length (Map.insert hash priority s.priorities) ≡ length (Set.insert hash seen) =
      ground (arith, Map.length-insert hash priority s.priorities, a.same hash, a.size) in
    let (kept, capacity) = insert_sent_within hash priority s (omega (arith, grown, room)) in
    (
      record {
        same = λ j.
            ap (Map.contains_key j) kept
            ∙ Map.contains_key-insert hash j priority s.priorities
            ∙ ground (arith, a.same j, a.same hash);
        size = ap length kept ∙ grown;
        distinct =
            subst Map.Distinct (sym kept)
              (Map.insert-Distinct hash priority s.priorities a.distinct);
        unique = insert-Unique hash seen a.unique;
      },
      capacity,
    )

removed-Agrees :
    (hash : ℕ) (s : SentCache) (seen : List ℕ)
    → Agrees s seen
    → Agrees (remove_sent hash s) (Set.remove hash seen)
unfolding remove_sent was_sent sent_len
removed-Agrees hash s seen a = record {
  same = λ j.
      Map.contains_key-remove hash j s.priorities
      ∙ ground (arith, a.same j, Set.contains-remove hash j seen);
  size = elim (Bool-cases (contains hash seen)) [
    | inl held ↦ ground (
      arith,
      held,
      a.size,
      a.same hash,
      Map.length-remove hash s.priorities a.distinct,
      length-set-remove hash seen a.unique,
    )
    | inr new ↦
        ap length (
          Map.remove_absent hash s.priorities
            (absent_of_contains_key hash s.priorities (a.same hash ∙ new)))
        ∙ a.size
        ∙ sym (ap length (remove_absent hash seen new))
  ];
  distinct = Map.remove-Distinct hash s.priorities a.distinct;
  unique = remove-Unique hash seen a.unique;
}

apply_all-Agrees :
    (steps : List SentStep) (s : SentCache) (seen : List ℕ)
    → Agrees s seen
    → StaysWithin s.max_entries steps seen
    → Agrees (apply_all steps s) (on_set_all steps seen)
unfolding apply_all apply remove_sent
apply_all-Agrees [] s seen a room = a
apply_all-Agrees (recorded hash priority ∷ steps) s seen a room =
    let (kept, capacity) = recorded-Agrees hash priority s seen a room.0 in
    apply_all-Agrees steps (insert_sent hash priority s).0 (Set.insert hash seen) kept
      (rw capacity room.1)
apply_all-Agrees (removed hash ∷ steps) s seen a room =
    apply_all-Agrees steps (remove_sent hash s) (Set.remove hash seen)
      (removed-Agrees hash s seen a) room.1

-- A new dedup cache and any steps through which the set of hashes recorded and not removed since
-- stays within the capacity, or within one for a capacity of zero: the cache then answers for every
-- hash whether it is in that set, and its size is the set's. Neither the queue nor the compaction
-- shows.
pub apply_all_lem :
    (capacity : ℕ) (steps : List SentStep)
    → StaysWithin (max capacity 1) steps []
    → ((hash : ℕ)
        → was_sent hash (apply_all steps (new_sent capacity)) ≡ contains hash (on_set_all steps []))
      × (sent_len (apply_all steps (new_sent capacity)) ≡ length (on_set_all steps []))
unfolding new_sent was_sent sent_len
apply_all_lem capacity steps room =
    let a =
      apply_all-Agrees steps (new_sent capacity) []
        (record { same = λ j. refl; size = refl; distinct = tt; unique = tt }) room in
    (a.same, a.size)
