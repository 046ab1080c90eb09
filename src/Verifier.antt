-- ===== src/Verifier.antt =====
-- core/vp-verifier.ts, in the order of the file: the host, one credential, a delegation chain, a
-- presentation; and what the verifier guarantees.
pub mod Host
pub mod Vc
pub mod Trust
pub mod Chain
pub mod Links
pub mod Delegated
pub mod Agents
pub mod Grants
pub mod Vp
pub mod Run
pub mod Authorities
pub mod Soundness
pub mod Fixture
pub mod Tests
