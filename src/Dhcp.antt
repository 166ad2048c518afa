-- ===== src/Dhcp.antt =====
-- src/ipstack/dhcpserver.c and dhcpserver.h: the DHCP server of the access point.
pub mod Options
pub mod Leases
pub mod Server
mod Tests
