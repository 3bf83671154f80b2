-- ===== src/Usage/Owners.antt =====
-- The owners of reservations: what the operations do to one of them.
pub mod Steps
pub mod Admissions
pub mod Settlements
pub mod Charges
pub mod Readmissions
pub mod Life
pub mod Final
pub mod Authorized
