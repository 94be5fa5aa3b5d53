-- ===== src/Utils.antt =====
-- core/utils.h: the hash of key numbers, the printable character, and the functions on text.
-- Wide integers are native numbers; a 64-bit product keeps its wrap-around.
pub mod Fnv
pub mod Text
unfoldable pub use Fnv.*
unfoldable pub use Text.*
