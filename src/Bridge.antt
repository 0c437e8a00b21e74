-- ===== src/Bridge.antt =====
-- The C interface of packages/agent-native-bridge (include/HaskellAgentBridge.h): what it asks of
-- the two sides of a call, and the side that the runtime's Haskell code (ffi/Agent/CLI/MacOS)
-- implements.
pub mod Browser
pub mod Frame
pub mod Buffers
pub mod Staging
pub mod Syntax
pub mod Computer
