-- ===== src/Config.antt =====
-- pkg/config/config.go: the configurations of the program and of its plugins.
pub mod Parse
pub mod Fields
pub mod Tests
