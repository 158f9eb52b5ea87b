-- ===== src/Policy.antt =====
-- src/policy.rs: the tip policy. `Policy.Config` has the networks and the policy built from
-- them. `Policy.Score` has the scoring, `Policy.Encoding` the layout of the 256-bit priority.
pub mod Score
pub mod Encoding
pub mod Config
