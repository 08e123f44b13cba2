-- ===== src/Tests.antt =====
-- Runs of the code on concrete inputs, in which the theorems' hypotheses hold.
mod Table
mod Machine
mod Stores
mod Modules
mod Hooks
mod Loader
mod Symbols
mod Sessions
mod Databases
mod Starts
mod Access
mod Assets
mod Archives
