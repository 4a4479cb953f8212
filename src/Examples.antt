-- ===== src/Examples.antt =====
-- Runs on concrete inputs, and the theorems of the other modules applied to them.
mod Converting
mod Registering
mod Configuring
mod Reading
mod Preparing
mod Streaming
mod Handing
mod Planning
mod Slabs
mod Writing
mod Quantizing
mod Resolving
mod Downloading
