-- ===== src/Api/Routes.antt =====
-- src/api/main.py and src/api/routers/: the routes, and the pages that exceptions end in.
pub mod ErrorPages
pub mod Login
pub mod Forms
pub mod Pages
pub mod Report
