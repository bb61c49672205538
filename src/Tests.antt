-- ===== src/Tests.antt =====
-- The theorems at work on small machines.
mod Images
mod Pages
mod Envs
mod Disk
mod Shell
mod Text
mod Traffic
mod Paths
mod Server
mod Descriptors
mod Lexer
mod Forks
mod Printing
mod Devices
