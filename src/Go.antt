-- ===== src/Go.antt =====
-- The parts of Go's language and standard library that the modelled packages use.
pub mod Eq
pub mod Str
pub mod Fallible
pub mod Strings
pub mod Sort
pub mod Map
pub mod Gather
pub mod Int64
pub mod Time
pub mod Decimal
pub mod Calendar
pub mod Strconv
