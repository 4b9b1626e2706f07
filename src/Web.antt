-- ===== src/Web.antt =====
-- internal/web: the server, and the functions of the templates.
pub mod Funcs
pub mod Server
