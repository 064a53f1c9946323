-- ===== src/Config.antt =====
-- The campaign configuration of src/fuzzmeter/config.
pub mod Merge
pub mod Values
pub mod Fuzzers
pub mod Targets
pub mod Selection
pub mod Campaign
mod Tests
mod CampaignTests
