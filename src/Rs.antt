-- ===== src/Rs.antt =====
-- The Reed-Solomon code of src/main/rs: the field, the code words and the packet coder.
pub mod Galois
pub mod RsCode
pub mod Coder
mod Tests
