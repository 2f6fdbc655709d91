-- ===== src/Pmap/Table/Region.antt =====
-- boot_map_region: what a well-formed page directory maps, and what one round of the loop and the whole loop do to it.
pub mod Directory
pub mod Round
pub mod Walked
pub mod Write
pub mod Loop
pub mod Maps
