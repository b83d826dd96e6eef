-- ===== src/Platform.antt =====
-- What the program uses and does not implement: `float` arithmetic, the byte order, inet_ntop and
-- inet_pton, the overlay of the union in a packet, and when a vector moves its elements.
-- The operations are one record, which the definitions take as an instance argument; what is
-- documented of them stands in `FloatLaws` and `NetLaws`, which theorems take as hypotheses.
mod Defs
mod Instance
mod Union
pub use Defs.*
pub use Instance.{integers, integers-FloatLaws, integers-NetLaws}
pub use Union.*
