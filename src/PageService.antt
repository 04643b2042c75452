-- ===== src/PageService.antt =====
-- lib/page/service.ts: the application layer over the page repository. `Model` holds what it is
-- asked and answers, `Call` the calls that may fail or throw; the other modules hold the operations,
-- and what holds of them.
pub mod Model
pub mod Call
pub mod Content
pub mod Endpoints
pub mod Pages
pub mod Publishing
pub mod Updating
pub mod Relinking
pub mod Bulk
pub mod Duplicating
pub mod Delivery
pub mod Delivered
pub mod Keeps
pub mod Steps
pub mod Ownership
pub mod Guarded
pub mod Requests
pub mod Spared
pub mod Disclosure
mod Tests
