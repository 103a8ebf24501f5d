-- ===== src/Sdk.antt =====
-- Class Coredump of the Java SDK (opencore/src/main/java/penguin/opencore/sdk/Coredump.java).
pub mod Strings
pub mod Protocol
pub mod CrashHandler
pub mod Members
