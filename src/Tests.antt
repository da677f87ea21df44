-- ===== src/Tests.antt =====
-- Runs of the models and uses of their theorems at concrete values.
mod Samples
mod Hosts
mod Registry
mod Names
mod Schedule
mod Override
mod Dns
mod Compiler
mod Request
mod Session
mod Controller
mod Expiry
mod Workload
mod Api
mod Agents
