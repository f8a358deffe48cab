-- ===== src/Engine.antt =====
-- engine/: the runners of the program, of which the parser of a command's output is modelled.
pub mod Patterns
pub mod GenericParser
