-- ===== src/Obf.antt =====
-- src/core/src/obf.cpp: the password obfuscation. `Wheel` is the table of characters that both
-- schemes turn, `Key` obfEncodeByKey and obfDecodeByKey, `Password` obfiEncode and obfiDecode.
pub mod Wheel
pub mod Key
pub mod Password
