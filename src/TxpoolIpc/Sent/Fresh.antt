-- ===== src/TxpoolIpc/Sent/Fresh.antt =====
-- `SentCache::insert` (src/txpool_ipc.rs) and the other hashes.
use magma_sidecar.Prelude.{
  ℕ, ◌≡◌, ◌≢◌, ◌+◌, inl, inr, false, ltb, List, [], ◌∷◌, length, arith, Bool-cases,
}
use magma_sidecar.Prelude.Map
use magma_sidecar.TxpoolIpc.Sent.{
  SentCache, was_sent, add_sent, compact, drop_sent, evict_sent, insert_sent,
}

drop_sent_fresh :
    (oldest h : ℕ) (s : SentCache)
    → Map.contains_key h s.priorities ≡ false
    → Map.contains_key h (drop_sent oldest s).0.priorities ≡ false
unfolding drop_sent
drop_sent_fresh oldest h s new = ground (arith, new, Map.contains_key-remove oldest h s.priorities)

evict_sent_fresh :
    (queue : List ℕ) (evicted h : ℕ) (s : SentCache)
    → Map.contains_key h s.priorities ≡ false
    → Map.contains_key h (evict_sent queue evicted s).0.priorities ≡ false
unfolding evict_sent
evict_sent_fresh [] evicted h s new = new
evict_sent_fresh (oldest ∷ rest) evicted h s new =
    elim (Bool-cases (ltb s.max_entries (length s.priorities))) [
      | inr within ↦ rw within new
      | inl over ↦ rw over (
          evict_sent_fresh rest (evicted + (drop_sent oldest s).1) h (drop_sent oldest s).0
            (drop_sent_fresh oldest h s new))
    ]

add_sent_fresh :
    (hash priority h : ℕ) (s : SentCache)
    → hash ≢ h
    → Map.contains_key h s.priorities ≡ false
    → Map.contains_key h (compact (add_sent hash priority s)).priorities ≡ false
unfolding add_sent compact
add_sent_fresh hash priority h s apart new =
    ground (arith, new, apart, Map.contains_key-insert hash h priority s.priorities)

pub insert_sent_fresh :
    (hash priority h : ℕ) (s : SentCache)
    → hash ≢ h
    → was_sent h s ≡ false
    → was_sent h (insert_sent hash priority s).0 ≡ false
unfolding was_sent insert_sent
insert_sent_fresh hash priority h s apart new =
    let added = compact (add_sent hash priority s) in
    evict_sent_fresh added.order 0 h added (add_sent_fresh hash priority h s apart new)
