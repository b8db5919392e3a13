-- ===== src/Js.antt =====
-- What the client uses of JavaScript's own arrays and strings.
pub mod Array
pub mod Sort
pub mod Value
pub mod Text
pub mod Number
