-- ===== src/Base/Table.antt =====
-- A table is the list of its rows in the order of insertion; a WHERE clause is a Boolean test.
mod Defs
mod Laws
mod Keyed
mod Order
mod Lengths
mod Counts
pub use Defs.*
pub use Laws.*
pub use Keyed.*
pub use Order.*
pub use Lengths.*
pub use Counts.*
