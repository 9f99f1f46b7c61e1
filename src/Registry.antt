-- ===== src/Registry.antt =====
-- app/registry.py and app/seed_skills.py over the models of app/models.py.
pub mod Model
pub mod Store
pub mod Register
pub mod Rows
pub mod Transition
pub mod Invariant
pub mod Promotion
pub mod Champion
pub mod Succession
pub mod Registration
pub mod Listing
pub mod Wanted
pub mod Lifecycle
pub mod Vetted
