-- ===== src/Tests.antt =====
-- The theorems at concrete inputs, and runs of the definitions that can be followed in the source.
mod Agent
mod Plan
mod Run
mod Call
mod Calls
mod Event
mod Executor
mod Store
mod Imaging
mod Relay
mod Runs
mod Session
mod Search
mod Sse
mod Subagent
mod Tool
mod Usage
