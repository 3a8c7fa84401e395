-- ===== src/Tests.antt =====
-- The theorems at concrete inputs, and runs of the code.
mod Node
mod Runtime
mod Life
mod Memory
mod Trees
mod Indices
mod Second
mod Streams
mod Fields
mod Tables
