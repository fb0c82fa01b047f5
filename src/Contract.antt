-- ===== src/Contract.antt =====
-- pkg/contract: the contract between a profile and a request.
pub mod Value
pub mod Types
pub mod Semver
pub mod Env
pub mod Checks
pub mod Paths
pub mod Matrix
pub mod Digest
pub mod Fresh
pub mod Validate
pub mod Demands
pub mod Total
pub mod Wellformed
pub mod Window
pub mod Sealing
pub mod Sealed
pub mod Accepted
pub mod Validated
pub mod Signature
pub mod Loading
