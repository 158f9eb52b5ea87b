-- ===== src/Backrun/Lead.antt =====
-- `observe_at` (src/backrun.rs) of a lead-block bid, and `emit_opportunity_once`.
use magma_sidecar.Prelude.{
  ℕ, ◌+◌, ◌%◌, ◌^◌, ◌≡◌, refl, ap, ◌∙◌, inl, inr, true, some, [], ◌∷◌, contains, arith, Bool-cases,
  Option-cases, if◌then◌else◌, ◌==◌, ==_refl,
}
use magma_sidecar.Prelude.Map
use magma_sidecar.Tx.{TxApi}
use magma_sidecar.Policy.Score.{GatewayCall, is_tob, decode_gateway_call, compute_priority}
use magma_sidecar.Policy.Encoding.Order.{encode_tob_priority_lem}
use magma_sidecar.Backrun.Pool.{PendingPool, ObserveResult}
use magma_sidecar.Backrun.Queues.{insert_cache}
use magma_sidecar.Backrun.Queues.Frames.{SamePending}
use magma_sidecar.Backrun.Queues.Cache.{insert_cache-IsCacheValid}
use magma_sidecar.Backrun.Invariant.{IsValid}
use magma_sidecar.Backrun.Observe.{is_gateway, observe_at, observe_tob, emit_opportunity_once}
use magma_sidecar.Backrun.Observe.Cases.{observe_at_tob}

module _ {Tx : Type 0} where
  observe_tob_lem :
      (api : TxApi Tx) (hash : ℕ) (tx : Tx) (p q : PendingPool Tx)
      → SamePending p q
      → (observe_tob hash tx (compute_priority api tx q.policy) q).reinjections
        ≡ record {
          hash = hash;
          tx = tx;
          priority =
              if compute_priority api tx p.policy == 0
              then p.fallback
              else 2 ^ 255 + compute_priority api tx p.policy % 2 ^ 128;
        }
          ∷ []
  unfolding observe_tob
  observe_tob_lem api hash tx p q same =
      rw (same.policy, same.fallback, encode_tob_priority_lem (compute_priority api tx p.policy))
        refl

  -- In a valid pool, a transaction for the gateway that decodes to a lead-block bid goes out at
  -- once and alone: with 2 ^ 255 and the low 128 bits of its score, or with the fallback where
  -- the score is zero. Bids parked on its hash are not sent: the parked bids and their count stay
  -- as they were.
  pub observe_at_lead :
      (api : TxApi Tx) (hash : ℕ) (tx : Tx) (now : ℕ) (p : PendingPool Tx) (call : GatewayCall)
      → IsValid p
      → is_gateway api tx p.policy ≡ true
      → decode_gateway_call api tx ≡ some call
      → is_tob call ≡ true
      → let (q, res) = observe_at api hash tx now p in
        (res.reinjections
          ≡ record {
            hash = hash;
            tx = tx;
            priority =
                if compute_priority api tx p.policy == 0
                then p.fallback
                else 2 ^ 255 + compute_priority api tx p.policy % 2 ^ 128;
          }
            ∷ [])
        × (q.pending ≡ p.pending)
        × (q.pending_count ≡ p.pending_count)
  observe_at_lead api hash tx now p call v bound decoded lead =
      let (_, _, same) = insert_cache-IsCacheValid hash tx now p v.cache in
      let cached = insert_cache hash tx now p in
      let e = observe_at_tob api hash tx now p call (rw same.policy bound) decoded lead in
      (
        ap (λ r. r.1.reinjections) e ∙ observe_tob_lem api hash tx p cached same,
        ap (λ r. r.0.pending) e ∙ same.pending,
        ap (λ r. r.0.pending_count) e ∙ same.pending_count,
      )

  -- Asking for a target a second time changes nothing and sends nothing more, and asking for a
  -- cached target marks it as streamed.
  pub emit_opportunity_once_again :
      (t : ℕ) (p : PendingPool Tx) (res : ObserveResult Tx)
      → let (q, sent) = emit_opportunity_once t p res in
        (emit_opportunity_once t q sent ≡ (q, sent))
        × (Map.contains_key t p.cache ≡ true → contains t q.streamed_targets ≡ true)
  unfolding emit_opportunity_once
  emit_opportunity_once_again t p res = elim (Bool-cases (contains t p.streamed_targets)) [
    | inl again ↦ ground (arith, again)
    | inr first ↦ elim (Option-cases (Map.get t p.cache)) [
      | inl gone ↦ ground (arith, first, gone, Map.not-contains_key_of_get t p.cache gone)
      | inr (cached, held) ↦ ground (arith, first, held, ==_refl t)
    ]
  ]
