-- ===== src/Roles.antt =====
-- models/role_assignment.py: the edges that a role assignment adds to the graph.
pub mod Lookup
pub mod Assignment
pub mod Edges
pub mod Within
pub mod Protection
pub mod Scope
mod Tests
