-- ===== src/Tooling.antt =====
-- Tool sets and the parsing of tool calls: src/inference/tooling.cpp.
pub mod Json
pub mod Toolset
pub mod Parse
