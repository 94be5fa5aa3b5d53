-- ===== src/Generators.antt =====
-- core/*_generator.h: the sources of numbers. Each class is a record of its fields; `next` returns
-- the value and the generator afterwards, and draws from the `World` are passed on explicitly.
pub mod Simple
pub mod Discrete
pub mod Hotspot
pub mod Zipfian
pub mod Any
