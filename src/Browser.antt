-- ===== src/Browser.antt =====
-- The browser: internal/platform/browser/chromedp.
pub mod Cookies
pub mod Pages
pub mod Sessions
mod Tests
