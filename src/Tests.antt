-- ===== src/Tests.antt =====
-- Concrete instances of the parameters, and the theorems applied to them.
mod Models
mod Metrics
mod Packet
mod Tracker
mod Promextra
mod Setup
mod Goroutines
mod Bytes
mod Cidr
mod Ring
mod Overlap
mod Exporter
mod Conservation
mod Delivered
mod Access
mod Query
mod Startup
