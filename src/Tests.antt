-- ===== src/Tests.antt =====
-- Runs of the model at small inputs, and each theorem that has conditions at inputs that meet them.
mod Connections
mod Pools
mod Scripts
mod Tasks
mod Ranges
mod Execs
mod Tables
mod Codecs
mod Amounts
mod Numerics
mod Objects
mod Rounding
mod Callbacks
mod Values
mod Widths
mod ParameterLists
