-- ===== src/Transition.antt =====
-- src/transition/shadow.py: the comparison of a response with its shadow.
pub mod Values
pub mod Printing
pub mod Canonical
pub mod Compare
pub mod Shapes
pub mod Same
pub mod Growth
pub mod Union
pub mod Loops
pub mod Agreement
pub mod Unique
pub mod Matching
pub mod Shadowing
pub mod Middleware
mod Tests
