-- ===== src/Programs.antt =====
-- The programs around NetTransfer: src/main.cpp, src/main_gui.cpp, src/launcher.cpp and
-- src/uninstall_rules.cpp.
pub mod Firewall
pub mod Console
pub mod Launcher
pub mod Progress
mod Tests
