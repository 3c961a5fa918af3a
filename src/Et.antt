-- ===== src/Et.antt =====
-- et/src: vectors with arithmetic, by naive operators and by expression templates.
pub mod Memory
pub mod Naive
pub mod Templates
pub mod Loop
pub mod NaiveSpec
pub mod NaiveValue
pub mod TemplatesSpec
pub mod Equivalence
mod Tests
