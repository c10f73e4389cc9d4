-- ===== src/Provisioning.antt =====
-- The loop of `doProvisioningWithSe`, rootpa/Code/Common/provisioningengine.c: the exchanges with
-- the service enabler, each of which tells the next one, over pointers to blocks of memory. A read
-- of a block that was freed, and a second `free` of it, are undefined, `none`.
pub mod Memory
pub mod Peer
pub mod Branches
pub mod Round
pub mod Owned
pub mod Laws
pub mod Ends
pub mod Requests
pub mod Turns
pub mod Provisioned
pub mod Faults
pub mod Start
pub mod Rootpa
