-- ===== src/Server.antt =====
-- server: access checks and the handlers of requests.
pub mod Check
pub mod Manage
pub mod Page
pub mod Auth
pub mod WebdavAuth
pub mod Login
pub mod Down
pub mod Upload
pub mod Read
