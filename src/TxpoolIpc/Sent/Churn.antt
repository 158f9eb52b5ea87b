-- ===== src/TxpoolIpc/Sent/Churn.antt =====
-- `SentCache` (src/txpool_ipc.rs) under rounds of `insert` and `remove` of one hash.
use magma_sidecar.Prelude.{
  ℕ, zero, suc, ◌<◌, ◌≡◌, refl, ap, true, List, [], ◌∷◌, ◌++◌, length, retain, arith, Bool, max,
}
use magma_sidecar.Prelude.Map
use magma_sidecar.TxpoolIpc.Sent.{
  SentCache, new_sent, add_sent, compact, insert_sent, remove_sent, sent_len,
}
use magma_sidecar.TxpoolIpc.Sent.Stale.{evict_sent_within}

-- `n` rounds of recording a hash and removing it again.
pub churn : ℕ → ℕ → ℕ → SentCache → SentCache
churn zero hash priority s = s
churn (suc n) hash priority s =
    remove_sent hash (insert_sent hash priority (churn n hash priority s)).0

abbrev replicate : ℕ → ℕ → List ℕ
replicate zero h = []
replicate (suc n) h = h ∷ replicate n h

replicate_snoc : (n h : ℕ) → replicate n h ++ h ∷ [] ≡ replicate (suc n) h
replicate_snoc zero h = refl
replicate_snoc (suc n) h = ap (◌∷◌ h) (replicate_snoc n h)

length-replicate : (n h : ℕ) → length (replicate n h) ≡ n
length-replicate zero h = refl
length-replicate (suc n) h = ap suc (length-replicate n h)

retain-replicate :
    (n h : ℕ) (keep : ℕ → Bool) → keep h ≡ true → retain keep (replicate n h) ≡ replicate n h
retain-replicate zero h keep k = refl
retain-replicate (suc n) h keep k = rw (k, retain-replicate n h keep k) refl

-- The cache that holds nothing and has queued a hash `n` times.
abbrev leftover : ℕ → ℕ → ℕ → SentCache
leftover n hash max_entries = record {
  priorities = [];
  order = replicate n hash;
  max_entries = max_entries;
}

compact_leftover :
    (n hash priority max_entries : ℕ)
    → let s : SentCache = record {
      priorities = (hash, priority) ∷ [];
      order = replicate n hash;
      max_entries = max_entries;
    } in
      compact s ≡ s
unfolding compact
compact_leftover n hash priority max_entries =
    let kept =
      retain-replicate n hash (λ candidate. Map.contains_key candidate ((hash, priority) ∷ []))
        (ground arith) in
    ground (arith, kept)

churn_round :
    (n hash priority max_entries : ℕ)
    → 0 < max_entries
    → remove_sent hash (insert_sent hash priority (leftover n hash max_entries)).0
      ≡ leftover (suc n) hash max_entries
unfolding remove_sent insert_sent add_sent
churn_round n hash priority max_entries pos =
    rw (replicate_snoc n hash, compact_leftover (suc n) hash priority max_entries)
      (rw
        (evict_sent_within (replicate (suc n) hash) 0
          (record {
            priorities = (hash, priority) ∷ [];
            order = replicate (suc n) hash;
            max_entries = max_entries;
          })
          (omega arith))
        (ground arith))

churn_lem :
    (n hash priority max_entries : ℕ)
    → churn n hash priority (new_sent max_entries) ≡ leftover n hash (max max_entries 1)
unfolding churn new_sent
churn_lem zero hash priority max_entries = refl
churn_lem (suc n) hash priority max_entries =
    rw (churn_lem n hash priority max_entries)
      (churn_round n hash priority (max max_entries 1) (omega arith))

-- Starting from a new dedup cache of any capacity, n rounds of recording a hash and removing it
-- again leave the cache empty and its queue with n entries.
pub churn_grows :
    (n hash priority max_entries : ℕ)
    → (sent_len (churn n hash priority (new_sent max_entries)) ≡ 0)
      × (length (churn n hash priority (new_sent max_entries)).order ≡ n)
unfolding sent_len
churn_grows n hash priority max_entries =
    rw (churn_lem n hash priority max_entries) (refl, length-replicate n hash)
