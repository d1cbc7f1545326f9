-- ===== src/Orders.antt =====
-- src/routes/orders/: the orders-list data source, the batch of quotes, and the two paginated
-- listings. A call of the library answers `none` where the source logs its error and replaces it.
pub mod Types
pub mod Kind
pub mod Source
pub mod Listing
pub mod Rows
mod Examples
pub mod Groups
pub mod Grouping
pub mod Batch
pub mod Cached
