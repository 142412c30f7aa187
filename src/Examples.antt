-- ===== src/Examples.antt =====
-- Runs of the code on small inputs, and the theorems at concrete arguments.
mod Sfc
mod Tree
mod Domain
mod Octree
mod Fields
mod Traversal
mod Spanning
mod Peers
mod Memory
