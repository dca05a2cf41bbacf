-- ===== src/Examples.antt =====
-- The theorems at concrete inputs: the sample data (Samples) and, by part, the examples.
mod Samples
mod Peers
mod Tables
mod Convergence
mod Groups
mod Lifecycle
mod Texts
mod Settings
mod Reporting
mod Netlink
mod Resolution
mod GlobalSettings
mod Policies
