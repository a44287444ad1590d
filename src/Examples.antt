-- ===== src/Examples.antt =====
-- The theorems at concrete inputs, and tests by evaluation, one module for each part.
mod Throughput
mod Latency
mod Ptp
mod Mailbox
mod Memory
mod Cli
mod Nccl
mod Launch
