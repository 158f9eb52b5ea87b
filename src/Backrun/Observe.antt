-- ===== src/Backrun/Observe.antt =====
-- src/backrun.rs, lines 139 to 220 and 290 to 303: what the pool does with an inserted transaction.
pub mod Branches
pub mod Cases
use magma_sidecar.Prelude.{
  ℕ, ◌+◌, Bool, true, false, ◌==◌, if◌then◌else◌, none, some, List, [], ◌∷◌, ◌++◌, contains,
}
use magma_sidecar.Prelude.Map
use magma_sidecar.Prelude.Set
use magma_sidecar.Word.{wrapping_sub_usize}
use magma_sidecar.Tx.{TxApi}
use magma_sidecar.Policy.Config.{PolicyConfig, is_allowlisted_gateway}
use magma_sidecar.Policy.Score.{GatewayCall, is_tob, decode_gateway_call, compute_priority}
use magma_sidecar.Policy.Encoding.{
  encode_tob_priority, encode_opportunity_priority, encode_backrun_bid_priority,
}
use magma_sidecar.Backrun.Pool.{PendingPool, PendingBid, Reinjection, ObserveResult, default_result}
use magma_sidecar.Backrun.Queues.{insert_cache, push_pending}

module _ {Tx : Type 0} where
  -- `res.reinjections.push(…)`.
  abbrev push_reinjection : Reinjection Tx → ObserveResult Tx → ObserveResult Tx
  push_reinjection r res = record res { reinjections = res.reinjections ++ r ∷ [] }

  -- The target goes out at most once, and only while it is cached.
  unfoldable pub emit_opportunity_once :
      ℕ → PendingPool Tx → ObserveResult Tx → PendingPool Tx × ObserveResult Tx
  emit_opportunity_once target p res =
      if contains target p.streamed_targets then (p, res) else elim (Map.get target p.cache) [
        | none ↦ (p, res)
        | some cached ↦ (
          record p { streamed_targets = Set.insert target p.streamed_targets },
          push_reinjection
              (record {
                hash = target;
                tx = cached.tx;
                priority = encode_opportunity_priority target;
              })
              res,
        )
      ]

  -- `for b in bids`, when the target of parked bids shows up.
  unfoldable pub flush_bids :
      ℕ
      → List (PendingBid Tx)
      → PendingPool Tx
      → ObserveResult Tx
      → PendingPool Tx × ObserveResult Tx
  flush_bids target [] p res = (p, res)
  flush_bids target (b ∷ bids) p res =
      flush_bids target bids (record p { pending_count = wrapping_sub_usize p.pending_count 1 })
        (record res {
          reinjections =
              res.reinjections
              ++ record {
                hash = b.hash;
                tx = b.tx;
                priority = encode_backrun_bid_priority target b.scalar;
              }
                ∷ [];
          pairs_matched = res.pairs_matched + 1;
        })

  -- A transaction that is not for the gateway.
  unfoldable pub observe_other : ℕ → PendingPool Tx → PendingPool Tx × ObserveResult Tx
  observe_other hash p = elim (Map.get hash p.pending) [
    | none ↦ (p, record default_result { skipped_non_gateway = true })
    | some bids ↦
        let (emitted, res) =
          emit_opportunity_once hash (record p { pending = Map.remove hash p.pending })
            default_result in
        flush_bids hash bids emitted res
  ]

  -- A lead-block bid.
  unfoldable pub observe_tob : ℕ → Tx → ℕ → PendingPool Tx → ObserveResult Tx
  observe_tob hash tx scalar p =
      push_reinjection
        (record {
          hash = hash;
          tx = tx;
          priority = if scalar == 0 then p.fallback else encode_tob_priority scalar;
        })
        default_result

  -- A backrun bid on `target`.
  unfoldable pub observe_backrun :
      ℕ → Tx → ℕ → ℕ → ℕ → PendingPool Tx → PendingPool Tx × ObserveResult Tx
  observe_backrun hash tx target scalar now p =
      if Map.contains_key target p.cache
      then (let (emitted, res) = emit_opportunity_once target p default_result in
          (
            emitted,
            record res {
              reinjections =
                  res.reinjections
                  ++ record {
                    hash = hash;
                    tx = tx;
                    priority = encode_backrun_bid_priority target scalar;
                  }
                    ∷ [];
              pairs_matched = res.pairs_matched + 1;
            },
          ))
      else (let (parked, evicted) =
            push_pending
              (record { hash = hash; tx = tx; scalar = scalar; target = target; seen_at = now })
              p in
          (parked, record default_result { bids_evicted = evicted; bids_pended = 1 }))

module _ {Tx : Type 0} (api : TxApi Tx) where
  open api use {to}

  -- `tx.to().is_some_and(|to| self.policy.is_allowlisted_gateway(&to))`.
  unfoldable pub is_gateway : Tx → PolicyConfig → Bool
  is_gateway tx policy = elim (to tx) [
    | none ↦ false
    | some addr ↦ is_allowlisted_gateway policy addr
  ]

  -- A call of the gateway.
  unfoldable pub observe_call :
      ℕ → Tx → ℕ → GatewayCall → PendingPool Tx → PendingPool Tx × ObserveResult Tx
  unfolding observe_tob observe_backrun
  observe_call hash tx now call p =
      if is_tob call
      then (p, observe_tob hash tx (compute_priority api tx p.policy) p)
      else observe_backrun hash tx call.target_tx_hash (compute_priority api tx p.policy) now p

  -- A transaction for the gateway.
  unfoldable pub observe_gateway : ℕ → Tx → ℕ → PendingPool Tx → PendingPool Tx × ObserveResult Tx
  unfolding observe_call
  observe_gateway hash tx now p = elim (decode_gateway_call api tx) [
    | some call ↦ observe_call hash tx now call p
    | none ↦ (p, record default_result { skipped_invalid_gateway = true })
  ]

  unfoldable pub observe_at : ℕ → Tx → ℕ → PendingPool Tx → PendingPool Tx × ObserveResult Tx
  unfolding is_gateway observe_gateway observe_other
  observe_at hash tx now p =
      let cached = insert_cache hash tx now p in
      if is_gateway tx cached.policy
      then observe_gateway hash tx now cached
      else observe_other hash cached

  -- `PendingPool::observe`, with the instant that it reads.
  abbrev pub observe : ℕ → Tx → ℕ → PendingPool Tx → PendingPool Tx × ObserveResult Tx
  observe hash tx now p = observe_at hash tx now p
