-- ===== src/Api.antt =====
pub mod Json
pub mod Stringify
pub mod FormatError
pub mod Uri
pub mod Client
pub mod Elections
pub mod Records
pub mod Services
pub mod Calls
pub mod Replies
pub mod Headers
pub mod Errors
pub mod Encoding
mod Examples
