-- ===== src/Helper.antt =====
-- The containers and the string functions of library/Helper.
pub mod Queue
pub mod Vector
pub mod Array
pub mod Text
