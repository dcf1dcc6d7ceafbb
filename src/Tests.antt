-- ===== src/Tests.antt =====
-- Small inputs for the theorems: a machine on single numbers, tables, keys and dictionaries.
mod Machine
mod Engine
mod Grouping
mod Dictionary
mod Population
mod Pushdown
mod Storing
mod Cutting
mod Sorted
mod Hashed
mod Fused
mod Grouped
mod Accumulated
