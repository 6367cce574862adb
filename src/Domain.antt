-- ===== src/Domain.antt =====
-- The data model (internal/domain/models.go): one record for each struct, in two children.
mod Inventory
mod Release
pub use Inventory.*
pub use Release.*
