-- ===== src/Routes/Count.antt =====
-- What the handlers of src/routes.rs count.
use Prim.Native.String.{String}
use text.Mathlib.Text.{◌==◌ as str_eq}
use magma_sidecar.Prelude.{ℕ, suc, ◌≡◌, refl, ◌⊎◌, inl, inr, ◌&&◌, if◌then◌else◌}
use magma_sidecar.Metrics.{Metrics, record_http, status_class}
use magma_sidecar.Metrics.Health.{HealthSnapshot, snapshot}
use magma_sidecar.Routes.{Response, metrics_endpoint}

-- The answer to `/metrics` is counted under the class of the status that is sent, whatever the
-- encoder answers, and under no other label; nothing that `/health` shows changes.
pub metrics_endpoint_counts :
    (rendered : String ⊎ String) (m : Metrics) (route class : String)
    → let (response, after) = metrics_endpoint rendered m in
      (after.http_requests_total route class ≡ (
        if str_eq route "/metrics" && str_eq class (status_class response.status)
        then suc (m.http_requests_total route class)
        else m.http_requests_total route class))
      × (snapshot after ≡ snapshot m)
unfolding metrics_endpoint record_http snapshot
metrics_endpoint_counts (inl body) m route class = (refl, refl)
metrics_endpoint_counts (inr e) m route class = (refl, refl)

-- The status that an answer is sent with.
abbrev pub status_of : HealthSnapshot ⊎ Response → ℕ
status_of (inl snap) = 200
status_of (inr response) = response.status
