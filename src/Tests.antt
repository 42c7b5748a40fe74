-- ===== src/Tests.antt =====
-- The theorems applied at concrete states, one module for each part of the program.
mod Base
mod Traps
mod Interrupts
mod Instructions
mod Cache
mod Controller
mod Words
mod Translation
mod Memory
mod Registers
mod Floats
mod Blocks
mod Queues
mod Buses
