-- ===== src/Utils.antt =====
-- The data structures of src/main/utils.
pub mod Queue
pub mod Strings
pub mod Bitmap
pub mod ConcurrentQueue
pub mod Heap
pub mod LinkedList
mod Tests
