-- ===== src/TxpoolIpc/Event/Complete.antt =====
-- The loop over the re-injections (src/txpool_ipc.rs, lines 197 to 221) where the sends succeed.
use mathlib.Core.List.{append-nil}
use magma_sidecar.Prelude.{
  ℕ, suc, ◌≡◌, ◌≢◌, refl, sym, ◌∙◌, false, Option, List, [], ◌∷◌, ◌++◌, map,
}
use magma_sidecar.Backrun.Pool.{Reinjection}
use magma_sidecar.TxpoolIpc.Sent.{SentCache, was_sent, insert_sent}
use magma_sidecar.TxpoolIpc.Sent.Fresh.{insert_sent_fresh}
use magma_sidecar.TxpoolIpc.Event.{LoopState, SendOutcome, sent_at, note_sent, send_all}
use magma_sidecar.TxpoolIpc.Event.Dedup.{frame, note_sent_wire, note_sent_cache}

module _ {Tx : Type 0} where
  abbrev pub Apart : ℕ → List (Reinjection Tx) → Type 0
  Apart h [] = Unit {0}
  Apart h (r ∷ rs) = (h ≢ r.hash) × Apart h rs

  -- Re-injections with different hashes, none of which is in the dedup cache.
  abbrev pub AllFresh : List (Reinjection Tx) → SentCache → Type 0
  AllFresh [] s = Unit {0}
  AllFresh (r ∷ rs) s = (was_sent r.hash s ≡ false) × Apart r.hash rs × AllFresh rs s

  insert_sent-AllFresh :
      (hash priority : ℕ) (rs : List (Reinjection Tx)) (s : SentCache)
      → Apart hash rs
      → AllFresh rs s
      → AllFresh rs (insert_sent hash priority s).0
  insert_sent-AllFresh hash priority [] s apart new = tt
  insert_sent-AllFresh hash priority (r ∷ rs) s apart new = (
    insert_sent_fresh hash priority r.hash s apart.0 new.0,
    new.1,
    insert_sent-AllFresh hash priority rs s apart.1 new.2,
  )

  -- Where every send succeeds, and the re-injections have different hashes of which none is in the
  -- dedup cache: every one of them goes out, in order, and the connection is kept.
  pub send_all_complete :
      (sends : ℕ → SendOutcome) (i : ℕ) (rs : List (Reinjection Tx)) (s : LoopState Tx)
      → ((j : ℕ) → (clock : Option ℕ) × (sends j ≡ sent_at clock))
      → AllFresh rs s.sent
      → ((send_all sends i rs s).0.wire ≡ s.wire ++ map frame rs)
        × ((send_all sends i rs s).1 ≡ false)
  unfolding send_all
  send_all_complete sends i [] s up new = (sym (append-nil s.wire), refl)
  send_all_complete sends i (r ∷ rs) s up new =
      let (clock, ok) = up i in
      let rest = send_all_complete sends (suc i) rs (note_sent r clock s) up (
        rw (note_sent_cache r clock s)
          (insert_sent-AllFresh r.hash r.priority rs s.sent new.1 new.2)) in
      (
        rw (new.0, ok, send_all) (rest.0 ∙ note_sent_wire r clock s (map frame rs)),
        rw (new.0, ok, send_all) rest.1,
      )
