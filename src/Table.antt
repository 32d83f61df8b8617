-- ===== src/Table.antt =====
-- Database tables: the statements that the source builds with SQLAlchemy (select ... where,
-- update ... where, delete, rowcount, limit 1, order by), over rows in the order of insertion.
mod Laws
pub use Laws.*
unfoldable pub use Laws.{by_key}
unfoldable pub use Defs.{select, first, update_where, rowcount, earliest, insert, order_by}
mod Defs
mod Order
mod Ids
pub use Order.*
pub use Ids.*
