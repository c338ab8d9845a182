-- ===== src/Time.antt =====
-- The time units and timestamp resolutions of src/utils/utils.cpp and include/type.h, and the time
-- range of include/range.h. A timestamp is a 64-bit unsigned number.
pub mod Units
pub mod Resolution
pub mod Range
mod Tests
