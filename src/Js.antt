-- ===== src/Js.antt =====
-- What the compiler service uses of JavaScript itself: strings as code units, dynamic values, and
-- the exceptions that it throws.
pub mod Text
pub mod Value
pub mod Fault
pub mod Host
pub mod Stream
mod Tests
