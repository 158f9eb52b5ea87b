-- ===== src/Routes.antt =====
-- src/routes.rs, lines 18 to 61, and `render_prometheus` of src/metrics.rs: the state, the route table
-- and the handlers of `/health` and `/metrics`. The registry and the text encoder of the prometheus
-- crate are parameters.
use Prim.Native.String.{String, ◌++◌}
pub mod Count
pub mod Apart
pub mod Turns
use magma_sidecar.Prelude.{ℕ, ◌⊎◌, inl, inr, List, [], ◌∷◌}
use magma_sidecar.Metrics.{Metrics, record_http}
use magma_sidecar.Metrics.Health.{HealthSnapshot, snapshot}

-- `Response`, with what the handlers fill in.
pub record Response : Type 0 where
  pub status : ℕ
  pub content_type : String
  pub body : String

-- `HttpState`, and `HttpState::new`.
pub record HttpState : Type 0 where
  pub metrics : Metrics

abbrev new_http_state : Metrics → HttpState
new_http_state metrics = record { metrics = metrics }

-- What `render_prometheus` uses of the prometheus crate: the registry's `gather` and the encoder, and
-- of the standard library: `String::from_utf8`. A result is on the left, an error
-- on the right, as its text; bytes are numbers.
pub record PrometheusApi (Family : Type 0) : Type 0 where
  pub gather : Metrics → Family
  pub encode : Family → List ℕ ⊎ String
  pub from_utf8 : List ℕ → String ⊎ String

module _ {Family : Type 0} (api : PrometheusApi Family) where
  open api use {gather, encode, from_utf8}

  -- `Metrics::render_prometheus`.
  unfoldable pub render_prometheus : Metrics → String ⊎ String
  render_prometheus m = elim (encode (gather m)) [ inl buf ↦ from_utf8 buf | inr e ↦ inr e ]

-- `health`: the snapshot is taken before the request is counted.
pub health : Metrics → HealthSnapshot × Metrics
health m = (snapshot m, record_http "/health" 200 m)

-- `metrics_endpoint`. The argument is `Ok(body)` or `Err(e)` with the text of the error.
unfoldable pub metrics_endpoint : String ⊎ String → Metrics → Response × Metrics
metrics_endpoint (inl body) m = (
  record { status = 200; content_type = "text/plain; version=0.0.4"; body = body },
  record_http "/metrics" 200 m,
)
metrics_endpoint (inr e) m = (
  record { status = 500; content_type = "text/plain"; body = "metrics encode error: " ++ e },
  record_http "/metrics" 500 m,
)

-- The handlers that `router` names.
pub data Handler : Type 0 where
  get_health get_metrics : Handler

-- `router`: the paths and their handlers. The matching of a request to a path is axum's.
abbrev pub router : List (String × Handler)
router = ("/health", get_health) ∷ ("/metrics", get_metrics) ∷ []

-- A request that axum gave to a handler: the answer, and the state after it.
unfoldable pub answer :
    {Family : Type 0}
    → PrometheusApi Family
    → Handler
    → HttpState
    → (HealthSnapshot ⊎ Response) × HttpState
unfolding health metrics_endpoint render_prometheus
answer api get_health s =
    let (snap, after) = health s.metrics in (inl snap, record { metrics = after })
answer api get_metrics s =
    let (response, after) = metrics_endpoint (render_prometheus api s.metrics) s.metrics in
    (inr response, record { metrics = after })
