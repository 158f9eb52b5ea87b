-- ===== src/TxpoolIpc/Sent/Stale.antt =====
-- `SentCache::insert` (src/txpool_ipc.rs) where the queue holds a copy that `remove` left behind.
use magma_sidecar.Prelude.{
  ℕ, suc, ◌+◌, ◌≤◌, ◌<◌, ◌≡◌, refl, ap, ◌∙◌, true, false, List, [], ◌∷◌, ◌++◌, length,
  length-append, arith, lt→ltb, le→ltb,
}
use magma_sidecar.Prelude.Map
use magma_sidecar.Word.{saturating_mul_usize}
use magma_sidecar.TxpoolIpc.Sent.{
  SentCache, was_sent, add_sent, compact, evict_sent, insert_sent, sent_len,
}
use magma_sidecar.TxpoolIpc.Sent.Bounds.{IsSentValid}

-- The eviction loop stops at once while the cache is within its capacity.
pub evict_sent_within :
    (queue : List ℕ) (evicted : ℕ) (s : SentCache)
    → length s.priorities ≤ s.max_entries
    → evict_sent queue evicted s ≡ (record s { order = queue }, evicted)
unfolding evict_sent
evict_sent_within [] evicted s h = refl
evict_sent_within (x ∷ q) evicted s h = rw (le→ltb _ _ h) refl

evict_sent_held :
    (oldest : ℕ) (rest : List ℕ) (evicted : ℕ) (s : SentCache)
    → s.max_entries < length s.priorities
    → Map.contains_key oldest s.priorities ≡ true
    → evict_sent (oldest ∷ rest) evicted s
      ≡ evict_sent rest (evicted + 1) (record s { priorities = Map.remove oldest s.priorities })
unfolding evict_sent
evict_sent_held oldest rest evicted s over held = rw (lt→ltb _ _ over) (rw held refl)

pub add_sent_new :
    (hash priority : ℕ) (s : SentCache)
    → Map.contains_key hash s.priorities ≡ false
    → add_sent hash priority s ≡ record s {
      priorities = Map.insert hash priority s.priorities;
      order = s.order ++ hash ∷ [];
    }
unfolding add_sent
add_sent_new hash priority s new = ground (arith, new)

compact_short :
    (s : SentCache) → length s.order ≤ saturating_mul_usize s.max_entries 2 → compact s ≡ s
unfolding compact
compact_short s short = rw (le→ltb _ _ short) refl

-- For a well-formed dedup cache that is full, whose queue starts with a copy of a hash that is
-- not in the cache, and whose queue is too short for a compaction: recording that hash evicts one
-- entry, and this is the hash just recorded.
pub insert_sent_stale :
    (hash priority : ℕ) (rest : List ℕ) (s : SentCache)
    → IsSentValid s
    → s.order ≡ hash ∷ rest
    → was_sent hash s ≡ false
    → sent_len s ≡ s.max_entries
    → suc (length s.order) ≤ saturating_mul_usize s.max_entries 2
    → (was_sent hash (insert_sent hash priority s).0 ≡ false)
      × ((insert_sent hash priority s).1 ≡ 1)
unfolding was_sent sent_len insert_sent
insert_sent_stale hash priority rest s v stale unsent full short =
    let grown = Map.insert hash priority s.priorities in
    let added : SentCache = record s { priorities = grown; order = s.order ++ hash ∷ [] } in
    let longer : length grown ≡ suc (length s.priorities) =
      Map.length-insert hash priority s.priorities ∙ ground (arith, unsent) in
    let held : Map.contains_key hash grown ≡ true =
      ground (arith, Map.contains_key-insert hash hash priority s.priorities) in
    let fewer =
      Map.length-remove hash grown (Map.insert-Distinct hash priority s.priorities v.sent.distinct)
        held in
    let evicted =
      ap (λ queue. evict_sent (queue ++ hash ∷ []) 0 added) stale
      ∙ evict_sent_held hash (rest ++ hash ∷ []) 0 added (omega (arith, longer, full)) held
      ∙ evict_sent_within (rest ++ hash ∷ []) (0 + 1)
          (record added { priorities = Map.remove hash grown })
          (omega (arith, longer, fewer, full)) in
    rw
      (
        add_sent_new hash priority s unsent,
        compact_short added (omega (arith, length-append s.order (hash ∷ []))),
      )
      (rw evicted (ground (arith, Map.contains_key-remove hash hash grown), refl))
