-- ===== src/Samples.antt =====
-- Concrete libraries, keys and messages, at which the theorems' hypotheses hold.
mod Messages
mod Table
mod Library
mod Facts
mod Defaults
mod Surroundings
unfoldable pub use Messages.*
unfoldable pub use Table.*
unfoldable pub use Library.*
unfoldable pub use Facts.*
unfoldable pub use Defaults.*
unfoldable pub use Surroundings.*
