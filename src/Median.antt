-- ===== src/Median.antt =====
-- The aggregate `my_median` of Source/03_Median/Mac/my_median.cpp and Source/03_Median/Linux/median.cpp.
pub mod Sort
pub mod Udf
pub mod Count
pub mod Sorted
pub mod Middle
pub mod Groups
pub mod Bag
pub mod Memory
pub mod Init
pub mod Linux
mod Examples
