-- ===== src/Shared.antt =====
-- The shared kernel: src/modules/shared/domain.
pub mod Result
pub mod Text
pub mod Decimal
pub mod Table
pub mod Asset
pub mod Money
pub mod Platform
pub mod Exec
pub mod Identifiers
pub mod Columns
pub mod Sort
pub mod Distinct
