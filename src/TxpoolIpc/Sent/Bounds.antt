-- ===== src/TxpoolIpc/Sent/Bounds.antt =====
-- The invariant of `SentCache` (src/txpool_ipc.rs) and its capacity.
use magma_sidecar.Prelude.{
  ℕ, suc, ◌+◌, ◌≤◌, ◌<◌, ◌≡◌, refl, ◌∙◌, inl, inr, true, ltb, List, [], ◌∷◌, length, contains,
  retain, arith, Bool-cases, ltb→le, if◌then◌else◌, Bool, ◌==◌,
}
use magma_sidecar.Prelude.Map
use magma_sidecar.Prelude.Set
use magma_sidecar.Word.{saturating_mul_usize}
use magma_sidecar.TxpoolIpc.Sent.{
  SentCache, new_sent, was_sent, add_sent, compact, drop_sent, evict_sent, insert_sent, remove_sent,
  sent_len,
}

-- The invariant, for the hashes that wait in the queue.
pub record IsSent (queue : List ℕ) (s : SentCache) : Type 0 where
  pub distinct : Map.Distinct s.priorities
  pub queued : (h : ℕ) → Map.contains_key h s.priorities ≡ true → contains h queue ≡ true

pub record IsSentValid (s : SentCache) : Type 0 where
  pub sent : IsSent s.order s
  pub bounded : length s.priorities ≤ s.max_entries

contains-retain :
    (h : ℕ) (keep : ℕ → Bool) (q : List ℕ)
    → keep h ≡ true
    → contains h q ≡ true
    → contains h (retain keep q) ≡ true
contains-retain h keep [] k c = c
contains-retain h keep (x ∷ q) k c = elim (Bool-cases (x == h)) [
  | inl same ↦
      let e : x ≡ h = ground (arith, same) in
      let kept : keep x ≡ true = rw e k in ground (arith, same, kept)
  | inr other ↦ ground (arith, other, contains-retain h keep q k)
]

pub add_sent-IsSent :
    (hash priority : ℕ) (s : SentCache)
    → IsSent s.order s
    → IsSent (add_sent hash priority s).order (add_sent hash priority s)
unfolding add_sent
add_sent-IsSent hash priority s v = record {
  distinct = Map.insert-Distinct hash priority s.priorities v.distinct;
  queued = λ h c. ground (
    arith,
    v.queued h,
    Map.contains_key-insert hash h priority s.priorities,
    Set.contains-append h s.order (hash ∷ []),
  );
}

pub compact-IsSent : (s : SentCache) → IsSent s.order s → IsSent (compact s).order (compact s)
unfolding compact
compact-IsSent s v =
    elim (Bool-cases (ltb (saturating_mul_usize s.max_entries 2) (length s.order))) [
      | inr short ↦ rw short v
      | inl long ↦ rw long (record {
        distinct = v.distinct;
        queued = λ h c.
            contains-retain h (λ candidate. Map.contains_key candidate s.priorities) s.order c
              (v.queued h c);
      })
    ]

pub drop_sent-IsSent :
    (h : ℕ) (rest : List ℕ) (s : SentCache)
    → IsSent (h ∷ rest) s
    → IsSent rest (drop_sent h s).0
      × (length (drop_sent h s).0.priorities + (drop_sent h s).1 ≡ length s.priorities)
      × ((drop_sent h s).0.max_entries ≡ s.max_entries)
unfolding drop_sent
drop_sent-IsSent h rest s v = elim (Bool-cases (Map.contains_key h s.priorities)) [
  | inl held ↦ rw held (
    record {
      distinct = Map.remove-Distinct h s.priorities v.distinct;
      queued = λ k c. ground (arith, v.queued k, Map.contains_key-remove h k s.priorities);
    },
    omega (arith, Map.length-remove h s.priorities v.distinct held),
    refl,
  )
  | inr gone ↦ rw gone (
    record { distinct = v.distinct; queued = λ k c. ground (arith, v.queued k, gone) },
    omega arith,
    refl,
  )
]

evict_sent-IsSentValid :
    (queue : List ℕ) (evicted : ℕ) (s : SentCache)
    → IsSent queue s
    → IsSentValid (evict_sent queue evicted s).0
      × ((evict_sent queue evicted s).0.max_entries ≡ s.max_entries)
      × (length (evict_sent queue evicted s).0.priorities + (evict_sent queue evicted s).1
          ≡ length s.priorities + evicted)
unfolding evict_sent
evict_sent-IsSentValid [] evicted s v =
    let none_sent : s.priorities ≡ [] =
      Map.eq-nil_of_get s.priorities (λ k. ground (arith, v.queued k)) in
    (
      record {
        sent = record { distinct = v.distinct; queued = v.queued };
        bounded = rw none_sent (omega arith);
      },
      refl,
      refl,
    )
evict_sent-IsSentValid (oldest ∷ rest) evicted s v =
    elim (Bool-cases (ltb s.max_entries (length s.priorities))) [
      | inr within ↦ rw within (
        record {
          sent = record { distinct = v.distinct; queued = v.queued };
          bounded = ltb→le _ _ within;
        },
        refl,
        refl,
      )
      | inl over ↦
          let (dropped, counted, same) = drop_sent-IsSent oldest rest s v in
          let (valid, same', counted') =
            evict_sent-IsSentValid rest (evicted + (drop_sent oldest s).1) (drop_sent oldest s).0
              dropped in
          rw over (valid, same' ∙ same, omega (arith, counted, counted'))
    ]

add_sent-compact :
    (s : SentCache)
    → (length (compact s).priorities ≡ length s.priorities)
      × ((compact s).max_entries ≡ s.max_entries)
unfolding compact
add_sent-compact s = ground arith

-- From a well-formed dedup cache, recording a hash gives a well-formed one with the same
-- capacity, and the new size plus the number returned is the old size, plus one if the hash was
-- not in the cache.
pub insert_sent-IsSentValid :
    (hash priority : ℕ) (s : SentCache)
    → IsSentValid s
    → IsSentValid (insert_sent hash priority s).0
      × ((insert_sent hash priority s).0.max_entries ≡ s.max_entries)
      × (sent_len (insert_sent hash priority s).0 + (insert_sent hash priority s).1
          ≡ (if was_sent hash s then sent_len s else suc (sent_len s)))
unfolding insert_sent sent_len was_sent add_sent
insert_sent-IsSentValid hash priority s v =
    let added = add_sent hash priority s in
    let (valid, same, counted) =
      evict_sent-IsSentValid (compact added).order 0 (compact added)
        (compact-IsSent added (add_sent-IsSent hash priority s v.sent)) in
    let (kept, kept_max) = add_sent-compact added in
    (
      valid,
      same ∙ kept_max,
      omega (arith, counted, kept) ∙ Map.length-insert hash priority s.priorities,
    )

-- A new dedup cache satisfies the invariant and has capacity for a hash.
pub new_sent-IsSentValid :
    (max_entries : ℕ)
    → IsSentValid (new_sent max_entries) × (0 < (new_sent max_entries).max_entries)
unfolding new_sent
new_sent-IsSentValid max_entries = (
  record {
    sent = record { distinct = tt; queued = λ h c. absurd (ground arith) };
    bounded = omega arith;
  },
  omega arith,
)

-- Removing a hash keeps the invariant.
pub remove_sent-IsSentValid :
    (hash : ℕ) (s : SentCache) → IsSentValid s → IsSentValid (remove_sent hash s)
unfolding remove_sent
remove_sent-IsSentValid hash s v = record {
  sent = record {
    distinct = Map.remove-Distinct hash s.priorities v.sent.distinct;
    queued = λ k c. ground (arith, v.sent.queued k, Map.contains_key-remove hash k s.priorities);
  };
  bounded = omega (arith, Map.length-remove-le hash s.priorities, v.bounded);
}
