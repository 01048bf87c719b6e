-- ===== src/Tests.antt =====
-- Tests of the definitions on concrete inputs, and each theorem with hypotheses at an input that
-- meets them.
mod Fixed
mod Places
mod Pacing
mod Patches
mod Hooks
mod Daemons
mod Hosts
mod Shells
mod Calls
mod Configs
mod Layouts
mod Startups
mod Symbols
mod Setups
mod Clients
mod Charts
mod Logs
mod Tables
mod Frequencies
mod Sums
mod LogRuns
