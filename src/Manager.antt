-- ===== src/Manager.antt =====
-- cmd: loading plugins (manager/manager.go) and the start of the program (main.go).
pub mod Plugins
pub mod Load
pub mod Start
pub mod Main
pub mod Running
pub mod Transports
pub mod Registered
pub mod Decision
pub mod Tests
