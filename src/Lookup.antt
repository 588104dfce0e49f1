-- ===== src/Lookup.antt =====
-- lookup.py: what `OktaLookup` answers about the members of resource sets from the tables of the collected objects.
pub mod Tables
pub mod Resolve
mod Tests
