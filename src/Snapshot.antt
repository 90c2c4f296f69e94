-- ===== src/Snapshot.antt =====
-- chain/bsc2/snapshot.go: the Parlia snapshot (validators, candidates, recent signers, attestation,
-- turn length) and how a header extends it.
pub mod Extra
pub mod State
pub mod Step
pub mod Boot
pub mod Port
pub mod Store
pub mod Examples
