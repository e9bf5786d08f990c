-- ===== src/Bytecode.antt =====
-- The bytecode of the machine and what is checked of it before it runs: lang/op.zig, lang/chunk_decoder.zig
-- and lang/chunk_verifier.zig.
pub mod Checked
pub mod Decoder
pub mod Effect
pub mod Op
pub mod Scan
mod Tests
pub mod Verifier
pub mod Walk
