-- ===== src/Bits.antt =====
-- The bit operations of C at variables: `bit x k` is binary digit k of x. The laws of `&`, `|` and
-- `~` are stated digit by digit and by splitting a word into fields.
mod Step
mod Digits
mod Fields
unfoldable pub use Digits.*
pub use Fields.*
