-- ===== src/Downloader.antt =====
-- include/downloader_simple.h: `DownloaderSimple`, one download from its URI to the closed file.
pub mod State
pub mod File
pub mod Net
pub mod Events
pub mod Bytes
pub mod Written
pub mod Accounting
pub mod Silence
pub mod Orders
pub mod Body
pub mod Start
pub mod Address
pub mod Safety
mod Tests
pub mod Failure
