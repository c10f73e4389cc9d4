-- ===== src/CommandHandler.antt =====
-- rootpa/Code/Common/commandhandler.c: the calls that the operating system's part of RootPA makes
-- (rootpa/Code/Common/include/provisioningagent.h). `Queries` reads containers, `Version` asks the
-- trustlet, and `Provision` starts the provisioning thread.
pub mod Queries
pub mod Version
pub mod Provision
