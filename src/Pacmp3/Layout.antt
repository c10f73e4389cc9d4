-- ===== src/Pacmp3/Layout.antt =====
-- What a prepared command looks like (`prepareCommand`, rootpa/Code/Common/pacmp3.c): parts one
-- behind the other in the mapped buffer, with a row for each in the element table.
pub mod Parts
pub mod Grown
pub mod Needs
pub mod Fetched
pub mod Prepared
pub mod Stale
pub mod Unmoved
