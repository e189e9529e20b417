-- ===== src/Swift.antt =====
-- What the app uses of Swift's standard library: Int, Dictionary and sorted(by:). The order in which
-- a dictionary hands out its entries and the sorting algorithm are arguments of the model.
pub mod Int
pub mod Order
pub mod Dictionary
pub mod Entries
pub mod Sorting
