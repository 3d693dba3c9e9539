-- ===== src/Coordination/Types.antt =====
-- internal/coordination/types.go and the records of command_store.go. A named string type with
-- constants is a data type with a constructor for each constant, and one for any other string.
-- An `int` generation is kept as its 64-bit pattern.
mod Enums
mod Records
mod Equality
pub use Enums.*
pub use Records.*
unfoldable pub use Equality.*
