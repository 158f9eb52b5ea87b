-- ===== src/TxpoolIpc/Sent.antt =====
-- src/txpool_ipc.rs, lines 43 to 96: the hashes already sent, for suppressing echoes.
pub mod Bounds
pub mod Stale
pub mod Churn
pub mod Remember
pub mod Fresh
pub mod Refines
pub mod Kept
use magma_sidecar.Prelude.{
  ℕ, ◌+◌, max, Bool, ltb, if◌then◌else◌, List, [], ◌∷◌, ◌++◌, length, retain,
}
use magma_sidecar.Prelude.Map
use magma_sidecar.Prelude.Map.{HashMap}
use magma_sidecar.Word.{saturating_mul_usize}

pub record SentCache : Type 0 where
  pub priorities : HashMap ℕ
  pub order : List ℕ
  pub max_entries : ℕ

-- `SentCache::new`.
unfoldable pub new_sent : ℕ → SentCache
new_sent max_entries = record { priorities = []; order = []; max_entries = max max_entries 1 }

-- `SentCache::contains`.
unfoldable pub was_sent : ℕ → SentCache → Bool
was_sent hash s = Map.contains_key hash s.priorities

-- `self.priorities.insert(…)`, and a new hash at the back of the queue.
unfoldable pub add_sent : ℕ → ℕ → SentCache → SentCache
add_sent hash priority s = record s {
  priorities = Map.insert hash priority s.priorities;
  order = if Map.contains_key hash s.priorities then s.order else s.order ++ hash ∷ [];
}

-- The compaction of the queue.
unfoldable pub compact : SentCache → SentCache
compact s =
    if ltb (saturating_mul_usize s.max_entries 2) (length s.order)
    then record s { order = retain (λ candidate. Map.contains_key candidate s.priorities) s.order }
    else s

-- One popped hash, and whether it counts as an eviction.
unfoldable pub drop_sent : ℕ → SentCache → SentCache × ℕ
drop_sent oldest s =
    if Map.contains_key oldest s.priorities
    then (record s { priorities = Map.remove oldest s.priorities }, 1)
    else (s, 0)

-- `while self.priorities.len() > self.max_entries`, over the queue.
unfoldable pub evict_sent : List ℕ → ℕ → SentCache → SentCache × ℕ
unfolding drop_sent
evict_sent [] evicted s = (record s { order = [] }, evicted)
evict_sent (oldest ∷ rest) evicted s =
    if ltb s.max_entries (length s.priorities)
    then evict_sent rest (evicted + (drop_sent oldest s).1) (drop_sent oldest s).0
    else (record s { order = oldest ∷ rest }, evicted)

-- `SentCache::insert`: the new cache, and how many entries were evicted.
unfoldable pub insert_sent : ℕ → ℕ → SentCache → SentCache × ℕ
insert_sent hash priority s =
    let compacted = compact (add_sent hash priority s) in evict_sent compacted.order 0 compacted

-- `SentCache::remove`: the queue keeps the hash.
pub remove_sent : ℕ → SentCache → SentCache
remove_sent hash s = record s { priorities = Map.remove hash s.priorities }

-- `SentCache::len`.
unfoldable pub sent_len : SentCache → ℕ
sent_len s = length s.priorities
