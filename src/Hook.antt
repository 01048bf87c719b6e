-- ===== src/Hook.antt =====
-- src/hook.c: intercepting functions of shared libraries on x86_64.
pub mod Maps
pub mod Blocks
pub mod Span
pub mod Symbols
pub mod Query
pub mod Registry
pub mod Patch
pub mod Protect
