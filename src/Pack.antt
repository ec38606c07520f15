-- ===== src/Pack.antt =====
-- core/src/packStruct.cpp: the packing of a struct's members into bytes, natively or as XML,
-- and the reading of them.
pub mod Escape
pub mod Output
pub mod Native
pub mod Xml
pub mod Instruct
mod Tests
