-- ===== src/Backrun/Observe/Cases.antt =====
-- Which branch `observe_at` (src/backrun.rs) takes.
use magma_sidecar.Prelude.{
  ℕ, ◌≡◌, refl, inl, inr, true, false, none, some, Bool-cases, Option-cases,
}
use magma_sidecar.Tx.{TxApi}
use magma_sidecar.Policy.Score.{GatewayCall, is_tob, decode_gateway_call, compute_priority}
use magma_sidecar.Backrun.Pool.{PendingPool, ObserveResult, default_result}
use magma_sidecar.Backrun.Queues.{insert_cache}
use magma_sidecar.Backrun.Observe.{
  observe_other, observe_backrun, observe_tob, observe_gateway, observe_at, is_gateway,
}

module _ {Tx : Type 0} (api : TxApi Tx) (hash : ℕ) (tx : Tx) (now : ℕ) (p : PendingPool Tx) where
  -- The pool once the transaction is cached.
  abbrev after_cache : PendingPool Tx
  after_cache = insert_cache hash tx now p

  pub observe_at_other :
      is_gateway api tx after_cache.policy ≡ false
      → observe_at api hash tx now p ≡ observe_other hash after_cache
  unfolding observe_at
  observe_at_other other = rw other refl

  pub observe_at_invalid :
      is_gateway api tx after_cache.policy ≡ true
      → decode_gateway_call api tx ≡ none
      → observe_at api hash tx now p
        ≡ (after_cache, record default_result { skipped_invalid_gateway = true })
  unfolding observe_at
  observe_at_invalid bound undecoded = rw (bound, undecoded, observe_gateway) refl

  pub observe_at_tob :
      (call : GatewayCall)
      → is_gateway api tx after_cache.policy ≡ true
      → decode_gateway_call api tx ≡ some call
      → is_tob call ≡ true
      → observe_at api hash tx now p ≡ (
        after_cache,
        observe_tob hash tx (compute_priority api tx after_cache.policy) after_cache,
      )
  unfolding observe_at
  observe_at_tob call bound decoded lead = rw (bound, decoded, observe_gateway) (rw lead refl)

  pub observe_at_backrun :
      (call : GatewayCall)
      → is_gateway api tx after_cache.policy ≡ true
      → decode_gateway_call api tx ≡ some call
      → is_tob call ≡ false
      → observe_at api hash tx now p
        ≡ observe_backrun hash tx call.target_tx_hash
            (compute_priority api tx after_cache.policy)
            now
            after_cache
  unfolding observe_at
  observe_at_backrun call bound decoded follows =
      rw (bound, decoded, observe_gateway) (rw follows refl)

  -- A statement about observing holds if it holds on each of the four branches.
  pub observe_at_cases :
      (P : PendingPool Tx × ObserveResult Tx → Type 0)
      → (is_gateway api tx after_cache.policy ≡ false → P (observe_other hash after_cache))
      → (is_gateway api tx after_cache.policy ≡ true
          → P (after_cache, record default_result { skipped_invalid_gateway = true }))
      → ((call : GatewayCall)
          → is_gateway api tx after_cache.policy ≡ true
          → decode_gateway_call api tx ≡ some call
          → is_tob call ≡ true
          → P (
            after_cache,
            observe_tob hash tx (compute_priority api tx after_cache.policy) after_cache,
          ))
      → ((call : GatewayCall)
          → is_gateway api tx after_cache.policy ≡ true
          → decode_gateway_call api tx ≡ some call
          → is_tob call ≡ false
          → P (
              observe_backrun hash tx call.target_tx_hash
                (compute_priority api tx after_cache.policy)
                now
                after_cache))
      → P (observe_at api hash tx now p)
  observe_at_cases P other invalid tob backrun =
      elim (Bool-cases (is_gateway api tx after_cache.policy)) [
        | inr away ↦ rw (observe_at_other away) (other away)
        | inl bound ↦ elim (Option-cases (decode_gateway_call api tx)) [
          | inl undecoded ↦ rw (observe_at_invalid bound undecoded) (invalid bound)
          | inr (call, decoded) ↦ elim (Bool-cases (is_tob call)) [
            | inl lead ↦ rw (observe_at_tob call bound decoded lead) (tob call bound decoded lead)
            | inr follows ↦
                rw (observe_at_backrun call bound decoded follows)
                  (backrun call bound decoded follows)
          ]
        ]
      ]
