-- ===== src/Auth.antt =====
-- src/auth: passwords, session cookies and users.
pub mod Passwords
pub mod Sessions
pub mod Users
