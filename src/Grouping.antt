-- ===== src/Grouping.antt =====
-- Package server/grouping: which postings are legs of one economic event.
pub mod Posting
pub mod State
pub mod Reader
pub mod Ordinals
pub mod Rules
pub mod Admission
pub mod Partition
pub mod Neighbourhood
pub mod Diff
pub mod Engine
pub mod Shadow
