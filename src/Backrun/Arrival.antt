-- ===== src/Backrun/Arrival.antt =====
-- `observe_at` (src/backrun.rs) of a target and any number of bids on it, in the order in which they
-- arrive.
pub mod Waiting
pub mod Pooled
pub mod Order
use magma_sidecar.Prelude.{
  ℕ, ◌+◌, ◌≤◌, ◌<◌, ◌≡◌, ◌≢◌, ◌∙◌, Bool, false, Option, none, some, List, [], ◌∷◌, ◌++◌, length,
  contains,
}
use magma_sidecar.Prelude.Map
use magma_sidecar.Tx.{TxApi}
use magma_sidecar.Policy.Config.{PolicyConfig}
use magma_sidecar.Policy.Score.{compute_priority}
use magma_sidecar.Policy.Encoding.{encode_opportunity_priority, encode_backrun_bid_priority}
use magma_sidecar.Backrun.Pool.{PendingPool, PendingBid, Reinjection}
use magma_sidecar.Backrun.Queues.{add_cache}
use magma_sidecar.Backrun.Queues.Room.{insert_cache_grown}
use magma_sidecar.Backrun.Origin.{BidsOn}
use magma_sidecar.Backrun.Observe.{observe_at, observe_backrun}
use magma_sidecar.Backrun.Observe.Cases.{observe_at_backrun}

-- An insert: the hash, the transaction and the time at which the pool observes it.
pub record Arrival (Tx : Type 0) : Type 0 where
  pub hash : ℕ
  pub tx : Tx
  pub now : ℕ

module _ {Tx : Type 0} (api : TxApi Tx) where
  -- A list of inserts: the pool, all re-injections in order, and the pairs matched.
  unfoldable pub observe_all :
      List (Arrival Tx) → PendingPool Tx → PendingPool Tx × List (Reinjection Tx) × ℕ
  observe_all [] p = (p, [], 0)
  observe_all (x ∷ xs) p =
      let (q, res) = observe_at api x.hash x.tx x.now p in
      let (after, sent, pairs) = observe_all xs q in
      (after, res.reinjections ++ sent, res.pairs_matched + pairs)

module _ {Tx : Type 0} (api : TxApi Tx) (policy : PolicyConfig) (t : ℕ) where
  -- A bid on `t` under a hash of its own.
  abbrev pub Bids : Arrival Tx → Type 0
  Bids x = BidsOn api policy t x.tx × (x.hash ≢ t)

  -- The re-injection of a bid.
  abbrev pub bid_frame : Arrival Tx → Reinjection Tx
  bid_frame x = record {
    hash = x.hash;
    tx = x.tx;
    priority = encode_backrun_bid_priority t (compute_priority api x.tx policy);
  }

  abbrev pub parked_bid : Arrival Tx → PendingBid Tx
  parked_bid x = record {
    hash = x.hash;
    tx = x.tx;
    scalar = compute_priority api x.tx policy;
    target = t;
    seen_at = x.now;
  }

  pub bid_observed :
      (x : Arrival Tx) (p : PendingPool Tx)
      → Bids x
      → p.policy ≡ policy
      → length p.cache < p.max_cache_entries
      → observe_at api x.hash x.tx x.now p
        ≡ observe_backrun x.hash x.tx t
            (compute_priority api x.tx policy)
            x.now
            (add_cache x.hash x.tx x.now p)
  unfolding add_cache
  bid_observed x p (b, apart) same room =
      let cached = insert_cache_grown x.hash x.tx x.now p room in
      observe_at_backrun api x.hash x.tx x.now p b.call (rw (cached, same) b.bound) b.decoded
        b.follows
      ∙ (λ i.
          observe_backrun x.hash x.tx (b.aims i) (compute_priority api x.tx (cached i).policy) x.now
            (cached i))
      ∙ (λ i.
          observe_backrun x.hash x.tx t (compute_priority api x.tx (same i)) x.now
            (add_cache x.hash x.tx x.now p))

module _ {Tx : Type 0} (t : ℕ) (a : Tx) where
  -- The re-injection of the target.
  abbrev pub target_frame : Reinjection Tx
  target_frame = record { hash = t; tx = a; priority = encode_opportunity_priority t }

  -- The re-injections of a group: the target before its bids, and nothing without a bid.
  abbrev pub group : List (Reinjection Tx) → List (Reinjection Tx)
  group [] = []
  group (r ∷ rs) = target_frame ∷ r ∷ rs

module _ {Tx : Type 0} where
  -- The entry of `pending` for a list of parked bids.
  abbrev pub entry : List (PendingBid Tx) → Option (List (PendingBid Tx))
  entry [] = none
  entry (b ∷ bids) = some (b ∷ bids)

module _ {Tx : Type 0} (policy : PolicyConfig) (t : ℕ) where
  -- The target has not come yet, and `waiting` are the bids parked for it. There is room for
  -- `inserts` more in the cache, and for `bids` more bids.
  pub record IsWaiting (waiting : List (PendingBid Tx)) (parked inserts bids : ℕ)
      (p : PendingPool Tx) : Type 0 where
    pub same_policy : p.policy ≡ policy
    pub uncached : Map.contains_key t p.cache ≡ false
    pub unstreamed : contains t p.streamed_targets ≡ false
    pub held : Map.get t p.pending ≡ entry waiting
    pub counted : p.pending_count ≡ parked + length waiting
    pub cache_room : length p.cache + inserts ≤ p.max_cache_entries
    pub pending_room : p.pending_count + bids ≤ p.max_pending_entries

  -- The target is cached, and `streamed` says whether it was sent.
  pub record IsPooled (a : Tx) (streamed : Bool) (parked inserts : ℕ) (p : PendingPool Tx)
      : Type 0 where
    pub same_policy : p.policy ≡ policy
    pub seen_at : ℕ
    pub cached : Map.get t p.cache ≡ some (record { tx = a; seen_at = seen_at })
    pub mark : contains t p.streamed_targets ≡ streamed
    pub counted : p.pending_count ≡ parked
    pub cache_room : length p.cache + inserts ≤ p.max_cache_entries
