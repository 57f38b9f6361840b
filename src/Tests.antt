-- ===== src/Tests.antt =====
-- Runs of the definitions on concrete inputs, and the theorems at inputs that meet their hypotheses.
mod Engine
mod Policy
mod Expansion
mod Agents
mod Memory
mod Product
mod Workflow
mod Auth
mod Api
