-- ===== src/Dns.antt =====
-- src/dns: name servers, the hosts file and the resolver.
pub mod NameServer
pub mod Resolver
pub mod Hosts
pub mod Services
mod Examples
