-- ===== src/Tests.antt =====
-- The theorems applied at concrete inputs, by the part of the program that they are about.
mod Cache
mod Client
mod Cluster
mod Failover
mod Framing
mod Fresh
mod Pool
mod Proto
mod Python
mod Recovery
mod Server
mod Tcp
mod Text
mod TextCluster
mod Udp
