-- ===== src/TxpoolIpc/Sent/Kept.antt =====
-- `SentCache::insert` (src/txpool_ipc.rs) where it evicts nothing.
use magma_sidecar.Prelude.{
  ℕ, ◌+◌, ◌≤◌, ◌≡◌, refl, ◌∙◌, inl, inr, true, ltb, List, [], ◌∷◌, length, arith, Bool-cases,
}
use magma_sidecar.Prelude.Map
use magma_sidecar.TxpoolIpc.Sent.{
  SentCache, was_sent, add_sent, compact, drop_sent, evict_sent, insert_sent,
}

-- The number of evictions only grows.
evict_sent_grows :
    (queue : List ℕ) (evicted : ℕ) (s : SentCache) → evicted ≤ (evict_sent queue evicted s).1
unfolding evict_sent
evict_sent_grows [] evicted s = omega arith
evict_sent_grows (oldest ∷ rest) evicted s =
    elim (Bool-cases (ltb s.max_entries (length s.priorities))) [
      | inr within ↦ rw within (omega arith)
      | inl over ↦ rw over (
          omega (
            arith,
            evict_sent_grows rest (evicted + (drop_sent oldest s).1) (drop_sent oldest s).0,
          ))
    ]

drop_sent_idle :
    (oldest : ℕ) (s : SentCache)
    → (drop_sent oldest s).1 ≡ 0
    → (drop_sent oldest s).0.priorities ≡ s.priorities
unfolding drop_sent
drop_sent_idle oldest s e = elim (Bool-cases (Map.contains_key oldest s.priorities)) [
  | inl held ↦ absurd (ground (arith, held))
  | inr gone ↦ rw gone refl
]

evict_sent_idle :
    (queue : List ℕ) (evicted : ℕ) (s : SentCache)
    → (evict_sent queue evicted s).1 ≡ evicted
    → (evict_sent queue evicted s).0.priorities ≡ s.priorities
unfolding evict_sent
evict_sent_idle [] evicted s e = refl
evict_sent_idle (oldest ∷ rest) evicted s e =
    elim (Bool-cases (ltb s.max_entries (length s.priorities))) [
      | inr within ↦ rw within refl
      | inl over ↦
          let (next, dropped) = drop_sent oldest s in
          let e' : (evict_sent rest (evicted + dropped) next).1 ≡ evicted = rw over at e in
          let grows = evict_sent_grows rest (evicted + dropped) next in
          let none_dropped : dropped ≡ 0 = omega (arith, e', grows) in
          rw over (
            evict_sent_idle rest (evicted + dropped) next (omega (arith, e', none_dropped))
            ∙ drop_sent_idle oldest s none_dropped)
    ]

compact_priorities : (s : SentCache) → (compact s).priorities ≡ s.priorities
unfolding compact
compact_priorities s = ground arith

-- Where nothing is evicted, the recorded hash is remembered and no other is forgotten.
pub insert_sent_idle :
    (hash priority : ℕ) (s : SentCache)
    → (insert_sent hash priority s).1 ≡ 0
    → (was_sent hash (insert_sent hash priority s).0 ≡ true)
      × ((j : ℕ) → was_sent j s ≡ true → was_sent j (insert_sent hash priority s).0 ≡ true)
unfolding was_sent insert_sent add_sent
insert_sent_idle hash priority s e =
    let added = compact (add_sent hash priority s) in
    let kept =
      evict_sent_idle added.order 0 added e ∙ compact_priorities (add_sent hash priority s) in
    (
      rw kept (ground (arith, Map.contains_key-insert hash hash priority s.priorities)),
      λ j held.
          rw kept (ground (arith, held, Map.contains_key-insert hash j priority s.priorities)),
    )
