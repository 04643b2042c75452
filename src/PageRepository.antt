-- ===== src/PageRepository.antt =====
-- lib/page/memory-aggregate-repository.ts: the process-local repository of assets, pages and
-- endpoints. `State` holds its maps and private methods, the other modules one operation each.
pub mod State
pub mod Requests
pub mod Reads
pub mod Trials
pub mod Creation
pub mod Changes
pub mod Health
pub mod Requirements
pub mod Invariant
pub mod Removal
pub mod Claims
pub mod Scan
pub mod Clearing
pub mod Commit
pub mod NewPages
pub mod Replacing
pub mod Revisions
pub mod Updates
pub mod TrialOutcomes
pub mod Duplicates
pub mod Deletion
pub mod Observation
pub mod Assets
pub mod Transition
pub mod Effects
pub mod Safety
pub mod Resolution
pub mod LostUpdates
mod Tests
