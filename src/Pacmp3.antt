-- ===== src/Pacmp3.antt =====
-- rootpa/Code/Common/pacmp3.c: the commands and responses of the content management protocol.
-- `Prepare` puts a command together, `Store` writes the containers of a response to the registry
-- and `Response` handles a response; the other children prove.
pub mod Prepare
pub mod Store
pub mod Response
pub mod Frame
pub mod Layout
pub mod Stored
pub mod Accepted
