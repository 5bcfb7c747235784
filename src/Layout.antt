-- ===== src/Layout.antt =====
-- dashboard/components: the navigation, the selector of elections and the badges.
pub mod Sidebar
pub mod Highlight
pub mod Badges
mod Examples
