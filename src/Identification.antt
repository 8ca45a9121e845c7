-- ===== src/Identification.antt =====
-- server/service/identification/resolve.go: how the answers of several plugins about one instrument are
-- compared and merged. A normalizer of MICs and a lookup of countries may be nil; logging is left out.
pub mod Merge
pub mod Admission
pub mod Blanks
pub mod Claims
pub mod Compare
pub mod Confirmed
pub mod Proposals
pub mod Tested
