-- ===== src/Tests.antt =====
-- Concrete parameters, and runs of the development's theorems on them.
mod Wire
mod Transfer
mod Media
mod Keychain
mod Runtime
mod Clipboard
mod Browser
mod Bridge
mod Computer
mod Network
