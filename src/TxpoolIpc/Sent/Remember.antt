-- ===== src/TxpoolIpc/Sent/Remember.antt =====
-- `SentCache::insert` (src/txpool_ipc.rs) of a hash with no copy in the queue.
use magma_sidecar.Prelude.{
  ℕ, ◌+◌, ◌<◌, ◌≡◌, refl, ap, subst, ◌∙◌, sym, inl, inr, true, false, ltb, List, [], ◌∷◌, ◌++◌,
  length, contains, retain, arith, Bool-cases, ltb→le, ltb→lt, Bool, ◌==◌, lt→ltb,
}
use magma_sidecar.Prelude.Map
use magma_sidecar.Word.{saturating_mul_usize}
use magma_sidecar.TxpoolIpc.Sent.{
  SentCache, was_sent, add_sent, compact, drop_sent, evict_sent, insert_sent,
}
use magma_sidecar.TxpoolIpc.Sent.Bounds.{
  IsSent, IsSentValid, drop_sent-IsSent, add_sent-IsSent, compact-IsSent,
}
use magma_sidecar.TxpoolIpc.Sent.Stale.{evict_sent_within, add_sent_new}

evict_sent_over :
    (oldest : ℕ) (rest : List ℕ) (evicted : ℕ) (s : SentCache)
    → s.max_entries < length s.priorities
    → evict_sent (oldest ∷ rest) evicted s
      ≡ evict_sent rest (evicted + (drop_sent oldest s).1) (drop_sent oldest s).0
unfolding evict_sent
evict_sent_over oldest rest evicted s over = rw (lt→ltb _ _ over) refl

drop_sent_keeps :
    (oldest hash : ℕ) (s : SentCache)
    → (oldest == hash) ≡ false
    → Map.contains_key hash s.priorities ≡ true
    → Map.contains_key hash (drop_sent oldest s).0.priorities ≡ true
unfolding drop_sent
drop_sent_keeps oldest hash s other held =
    ground (arith, other, Map.contains_key-remove oldest hash s.priorities)

-- The eviction loop keeps the hash at the back of the queue, if no copy of it stands before.
evict_sent_keeps :
    (queue : List ℕ) (evicted hash : ℕ) (s : SentCache)
    → IsSent (queue ++ hash ∷ []) s
    → contains hash queue ≡ false
    → 0 < s.max_entries
    → Map.contains_key hash s.priorities ≡ true
    → Map.contains_key hash (evict_sent (queue ++ hash ∷ []) evicted s).0.priorities ≡ true
evict_sent_keeps [] evicted hash s v new pos held =
    let one =
      Map.length_of_one_key hash s.priorities v.distinct (λ j c. ground (arith, v.queued j c)) in
    rw (evict_sent_within (hash ∷ []) evicted s (omega (arith, one))) held
evict_sent_keeps (x ∷ queue) evicted hash s v new pos held =
    elim (Bool-cases (ltb s.max_entries (length s.priorities))) [
      | inr within ↦
          rw (evict_sent_within (x ∷ queue ++ hash ∷ []) evicted s (ltb→le _ _ within)) held
      | inl over ↦
          let (dropped, counted, same) = drop_sent-IsSent x (queue ++ hash ∷ []) s v in
          rw (evict_sent_over x (queue ++ hash ∷ []) evicted s (ltb→lt _ _ over)) (
            evict_sent_keeps queue (evicted + (drop_sent x s).1) hash (drop_sent x s).0 dropped
              (ground (arith, new)) (omega (arith, same))
              (drop_sent_keeps x hash s (ground (arith, new)) held))
    ]

retain_snoc :
    (keep : ℕ → Bool) (q : List ℕ) (h : ℕ)
    → keep h ≡ true
    → retain keep (q ++ h ∷ []) ≡ retain keep q ++ h ∷ []
retain_snoc keep [] h k = rw k refl
retain_snoc keep (x ∷ q) h k = ground (arith, retain_snoc keep q h k)

not-contains-retain :
    (h : ℕ) (keep : ℕ → Bool) (q : List ℕ)
    → contains h q ≡ false
    → contains h (retain keep q) ≡ false
not-contains-retain h keep [] c = refl
not-contains-retain h keep (x ∷ q) c = ground (arith, not-contains-retain h keep q)

-- After the compaction the new hash still stands at the back of the queue, and only there.
compact_queue :
    (hash : ℕ) (q : List ℕ) (s : SentCache)
    → s.order ≡ q ++ hash ∷ []
    → contains hash q ≡ false
    → Map.contains_key hash s.priorities ≡ true
    → (q' : List ℕ) × ((compact s).order ≡ q' ++ hash ∷ [])
      × (contains hash q' ≡ false)
      × ((compact s).priorities ≡ s.priorities)
      × ((compact s).max_entries ≡ s.max_entries)
unfolding compact
compact_queue hash q s back new held =
    elim (Bool-cases (ltb (saturating_mul_usize s.max_entries 2) (length s.order))) [
      | inr short ↦ (q, rw short back, new, rw short refl, rw short refl)
      | inl long ↦
          let keep = λ (candidate : ℕ). Map.contains_key candidate s.priorities in
          (
            retain keep q,
            rw long (ap (retain keep) back ∙ retain_snoc keep q hash held),
            not-contains-retain hash keep q new,
            rw long refl,
            rw long refl,
          )
    ]

-- In a well-formed dedup cache with a positive capacity, a hash of which no copy stands in the
-- queue is remembered once it is recorded, also when the cache is full.
pub insert_sent_remembers :
    (hash priority : ℕ) (s : SentCache)
    → IsSentValid s
    → 0 < s.max_entries
    → contains hash s.order ≡ false
    → was_sent hash (insert_sent hash priority s).0 ≡ true
unfolding was_sent insert_sent
insert_sent_remembers hash priority s v pos new =
    let unsent : Map.contains_key hash s.priorities ≡ false = ground (arith, v.sent.queued hash) in
    let added : SentCache = record s {
      priorities = Map.insert hash priority s.priorities;
      order = s.order ++ hash ∷ [];
    } in
    let same : add_sent hash priority s ≡ added = add_sent_new hash priority s unsent in
    let valid : IsSent added.order added =
      subst (λ r. IsSent r.order r) same (add_sent-IsSent hash priority s v.sent) in
    let held : Map.contains_key hash added.priorities ≡ true =
      ground (arith, Map.contains_key-insert hash hash priority s.priorities) in
    let (q, back, only, kept, capacity) = compact_queue hash s.order added refl new held in
    rw same (
      subst
        (λ queue. Map.contains_key hash (evict_sent queue 0 (compact added)).0.priorities ≡ true)
        (sym back)
        (evict_sent_keeps q 0 hash (compact added)
          (subst (λ queue. IsSent queue (compact added)) back (compact-IsSent added valid)) only
          (omega (arith, capacity)) (rw kept held)))
