-- ===== src/Routes/Turns.antt =====
-- Requests to src/routes.rs that come between the events of a connection of src/txpool_ipc.rs. Both
-- sides share the metrics.
use Prim.Native.String.{String}
use text.Mathlib.Text.{◌==◌ as str_eq}
use magma_sidecar.Prelude.{
  ℕ, suc, ◌+◌, ◌≡◌, refl, ap, ◌∙◌, ◌⊎◌, inl, inr, Bool, true, false, ◌&&◌, Bool-cases,
  if◌then◌else◌, List, [], ◌∷◌, arith,
}
use magma_sidecar.Tx.{TxApi}
use magma_sidecar.Metrics.{Metrics, record_http, status_class}
use magma_sidecar.Metrics.Health.{HealthSnapshot, snapshot}
use magma_sidecar.TxpoolIpc.Event.{LoopState, EthTxPoolEvent, World, handle_event, handle_batch}
use magma_sidecar.Routes.{
  Response, PrometheusApi, Handler, get_health, get_metrics, render_prometheus, metrics_endpoint,
  answer,
}
use magma_sidecar.Routes.Count.{status_of, metrics_endpoint_counts}
use magma_sidecar.Routes.Apart.{recounted, retagged, handle_event_apart}

-- What happens next: an event of the batch is handled, or a request is answered.
pub data Turn (Tx : Type 0) : Type 0 where
  event : EthTxPoolEvent Tx → World → Turn Tx
  request : Handler → Turn Tx

abbrev pub Reply : Type 0
Reply = Handler × (HealthSnapshot ⊎ Response)

-- The path under which the route table has a handler.
abbrev pub path_of : Handler → String
path_of get_health = "/health"
path_of get_metrics = "/metrics"

-- How many of the replies are counted under a route and a class of status.
abbrev pub hits : String → String → List Reply → ℕ
hits route class [] = 0
hits route class ((handler, reply) ∷ replies) =
    if str_eq route (path_of handler) && str_eq class (status_class (status_of reply))
    then suc (hits route class replies)
    else hits route class replies

-- What the replies to `/health` show.
abbrev pub healths : List Reply → List HealthSnapshot
healths [] = []
healths ((handler, inl snap) ∷ replies) = snap ∷ healths replies
healths ((handler, inr response) ∷ replies) = healths replies

-- The metrics after `/metrics` was answered.
only_recounted :
    (rendered : String ⊎ String) (m : Metrics)
    → let after = (metrics_endpoint rendered m).1 in after ≡ recounted after.http_requests_total m
unfolding metrics_endpoint record_http
only_recounted (inl body) m = refl
only_recounted (inr e) m = refl

module _ {Tx : Type 0} where
  -- The events of a schedule, without the requests.
  abbrev pub events : List (Turn Tx) → List (EthTxPoolEvent Tx × World)
  events [] = []
  events (event ev world ∷ turns) = (ev, world) ∷ events turns
  events (request handler ∷ turns) = events turns

  module _ (api : TxApi Tx) where
    -- What `/health` would show at the requests for it, if no request were ever counted.
    unfoldable pub views : List (Turn Tx) → LoopState Tx → List HealthSnapshot
    views [] s = []
    views (event ev world ∷ turns) s =
        let (after, broken) = handle_event api ev world s in
        elim broken [ true ↦ [] | false ↦ views turns after ]
    views (request get_health ∷ turns) s = snapshot s.metrics ∷ views turns s
    views (request get_metrics ∷ turns) s = views turns s

    module _ {Family : Type 0} (prom : PrometheusApi Family) where
      -- A request that is answered on the metrics that the loop has then.
      unfoldable pub serve : Handler → LoopState Tx → (HealthSnapshot ⊎ Response) × LoopState Tx
      serve handler s =
          let (reply, http) = answer prom handler (record { metrics = s.metrics }) in
          (reply, record s { metrics = http.metrics })

      -- The schedule, until the connection is to be left.
      unfoldable pub run_turns : List (Turn Tx) → LoopState Tx → (LoopState Tx × Bool) × List Reply
      run_turns [] s = ((s, false), [])
      run_turns (event ev world ∷ turns) s =
          let (after, broken) = handle_event api ev world s in
          elim broken [ true ↦ ((after, true), []) | false ↦ run_turns turns after ]
      run_turns (request handler ∷ turns) s =
          let (reply, after) = serve handler s in
          let (r, replies) = run_turns turns after in (r, (handler, reply) ∷ replies)

      run_turns_event :
          (ev : EthTxPoolEvent Tx) (world : World) (turns : List (Turn Tx)) (s : LoopState Tx)
          (h : LoopState Tx × Bool)
          → handle_event api ev world s ≡ h
          → run_turns (event ev world ∷ turns) s
            ≡ elim h.1 [ true ↦ ((h.0, true), []) | false ↦ run_turns turns h.0 ]
      unfolding run_turns
      run_turns_event ev world turns s h e =
          ap
            (λ (g : LoopState Tx × Bool). elim g.1 as (λ b. (LoopState Tx × Bool) × List Reply) [
              | true ↦ ((g.0, true), [])
              | false ↦ run_turns turns g.0
            ])
            e

      -- A request changes the counters of requests, and `/health` does not show these.
      record Served (handler : Handler) (f : String → String → ℕ) (s : LoopState Tx) : Type 0 where
        counters : String → String → ℕ
        reply : HealthSnapshot ⊎ Response
        served : serve handler (retagged f s) ≡ (reply, retagged counters s)
        counted :
            (route class : String)
            → counters route class ≡ (
                if str_eq route (path_of handler) && str_eq class (status_class (status_of reply))
                then suc (f route class)
                else f route class)
        shown : handler ≡ get_health → reply ≡ inl (snapshot s.metrics)
        hidden :
            handler ≡ get_metrics
            → (replies : List Reply) → healths ((handler, reply) ∷ replies) ≡ healths replies

      serve-Served :
          (handler : Handler) (f : String → String → ℕ) (s : LoopState Tx) → Served handler f s
      unfolding serve answer record_http snapshot
      serve-Served get_health f s = record {
        counters = _;
        reply = _;
        served = refl;
        counted = λ route class. refl;
        shown = λ e. refl;
        hidden = λ e replies. absurd (cc e);
      }
      serve-Served get_metrics f s =
          let m = recounted f s.metrics in
          let rendered = render_prometheus prom m in
          let (response, after) = metrics_endpoint rendered m in
          record {
            counters = after.http_requests_total;
            reply = inr response;
            served = ap (λ n. (inr response, record s { metrics = n })) (only_recounted rendered m);
            counted = λ route class. (metrics_endpoint_counts rendered m route class).0;
            shown = λ e. absurd (cc e);
            hidden = λ e replies. refl;
          }

      -- What a run with requests answers, next to the run of its events alone.
      pub record Apart (turns : List (Turn Tx)) (f : String → String → ℕ) (s : LoopState Tx)
          (r : (LoopState Tx × Bool) × List Reply) : Type 0 where
        pub counters : String → String → ℕ
        pub same :
            let (after, broken) = handle_batch api (events turns) s in
            r.0 ≡ (retagged counters after, broken)
        pub counted :
            (route class : String) → counters route class ≡ f route class + hits route class r.1
        pub shown : healths r.1 ≡ views turns s

      run_turns_from :
          (turns : List (Turn Tx)) (f : String → String → ℕ) (s : LoopState Tx)
          → Apart turns f s (run_turns turns (retagged f s))
      unfolding run_turns handle_batch views
      run_turns_from [] f s = record {
        counters = f;
        same = refl;
        counted = λ route class. omega arith;
        shown = refl;
      }
      run_turns_from (event ev world ∷ turns) f s =
          let after = (handle_event api ev world s).0 in
          let moved = handle_event_apart api f ev world s in
          elim (Bool-cases (handle_event api ev world s).1) [
            | inl broken ↦
                let e = moved ∙ ap (λ b. (retagged f after, b)) broken in
                rw (run_turns_event ev world turns (retagged f s) (retagged f after, true) e)
                  (record {
                    counters = f;
                    same = rw (broken, handle_batch) refl;
                    counted = λ route class. omega arith;
                    shown = rw (broken, views) refl;
                  })
            | inr whole ↦
                let e = moved ∙ ap (λ b. (retagged f after, b)) whole in
                let rest = run_turns_from turns f after in
                rw (run_turns_event ev world turns (retagged f s) (retagged f after, false) e)
                  (record {
                    counters = rest.counters;
                    same = rw (whole, handle_batch) rest.same;
                    counted = rest.counted;
                    shown = rw (whole, views) rest.shown;
                  })
          ]
      run_turns_from (request get_health ∷ turns) f s =
          let one = serve-Served get_health f s in
          let rest = run_turns_from turns one.counters s in
          rw (one.served, run_turns)
            (record {
              counters = rest.counters;
              same = rest.same;
              counted =
                  λ route class. ground (arith, rest.counted route class, one.counted route class);
              shown = rw (one.shown refl) (ap (◌∷◌ (snapshot s.metrics)) rest.shown);
            })
      run_turns_from (request get_metrics ∷ turns) f s =
          let one = serve-Served get_metrics f s in
          let rest = run_turns_from turns one.counters s in
          rw (one.served, run_turns)
            (record {
              counters = rest.counters;
              same = rest.same;
              counted =
                  λ route class. ground (arith, rest.counted route class, one.counted route class);
              shown = one.hidden refl (run_turns turns (retagged one.counters s)).1 ∙ rest.shown;
            })

      -- Whatever requests come between the events of a batch, on the metrics that both sides share:
      -- the loop does with its events what it does without any request, in the pool, the dedup cache,
      -- the frames, the answer whether to leave the connection, and all metrics but the counters of
      -- requests; these grow by the replies sent, under the path and the class of the status of each;
      -- and every reply to `/health` shows the metrics that the loop alone has at that point.
      pub run_turns-Apart :
          (turns : List (Turn Tx)) (s : LoopState Tx)
          → Apart turns s.metrics.http_requests_total s (run_turns turns s)
      run_turns-Apart turns s = run_turns_from turns s.metrics.http_requests_total s
