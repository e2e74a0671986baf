-- ===== src/Btree.antt =====
-- The standard library's `BTreeMap` and `BTreeSet`, as far as the source uses them: association
-- lists and lists that are kept strictly sorted by the order of the keys.
pub mod Map
pub mod Set
pub mod Keys
