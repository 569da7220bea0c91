-- ===== src/Map.antt =====
-- Go's `map[K]V`. The representation is private: clients have the laws. A Go map has no order, so
-- nothing here depends on one but the lists that the program sorts or writes to a file.
mod Defs
mod Laws
pub use Defs.{Map}
unfoldable pub use Defs.{
  keep, put_over, put_back, empty, get, put, remove, retain, insert_all, restore, values, size,
}
pub use Laws.*
