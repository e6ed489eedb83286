-- ===== src/Tests.antt =====
-- The theorems at concrete inputs.
mod Elf
mod Files
mod Links
mod Runs
mod Strings
mod Sections
