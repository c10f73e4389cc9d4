-- ===== src/Lib.antt =====
-- RootPA, the provisioning agent of a t-base device (rootpa/Code/Common): the part that runs
-- commands of the content management protocol (CMP). A caller gives a batch of commands; RootPA
-- opens a session to the content management trustlet, puts every command with the containers that
-- it needs into a buffer that it maps for the secure world, notifies the trustlet and waits, maps
-- a larger buffer if the trustlet asks for one, and writes the containers of the response to the
-- registry.
--
-- Files, by the sources of rootpa/Code/Common that they model:
--
-- - Cmp: command ids, result codes and CmpMessage (common/MobiCore/inc/TlCm/tlCmApiCommon.h,
--   common/MobiCore/inc/TlCm/cmpCommon.h, include/rootpa.h, include/rootpaErrors.h). Cmp/Ids has
--   the ids as a data type.
-- - World: the interface Platform, what RootPA calls and this library does not implement: malloc,
--   threads, the driver (mcOpenDevice, mcMap, mcNotify and so on) and the registry
--   (mcRegistryStoreSp and so on), as functions on an arbitrary type of worlds. A theorem about a
--   Platform holds for every driver and registry.
-- - State: the handle CMTSTRUCT (trustletchannel.h), the file-scope variables of pacmp3.c and
--   contentmanager.c, a log of what was asked of the platform and of the callback, and the state
--   monad.
-- - Registry: registry.c. Pacmtl: pacmtl.c, with the table of sizes in Pacmtl/Sizes. Channel:
--   trustletchannel.c.
-- - Pacmp3: pacmp3.c. Prepare is prepareCommand, Store is storeContainers, Response is
--   handleResponse; Layout says what a prepared command looks like, and Frame what preparing
--   leaves alone.
-- - ContentManager: contentmanager.c. Session is openCmtlSession and closeCmtlSession, Execute is
--   executeOneCmpCommand, Batch is executeContentManagementCommands; Ownership says what an open
--   session stands for.
-- - CommandHandler: commandhandler.c. Queries reads containers (with factoryResetAssumed of
--   pacmp3.c), Version is getVersion and getSuid, Provision is provision and the thread that it
--   starts.
-- - Uri: the addresses of the service enabler in provisioningengine.c, from addSlashToUri to
--   createBasicLink, and how doProvisioningWithSe puts them together to install a trustlet.
-- - SeClient: seclient.c. Text is the search in strings that end in a zero, Header the Link
--   header, Transfer the callbacks for bytes that go out and come in, Options what is set in
--   libcurl, Communicate httpCommunicate with its attempts, Http the four requests, Answers what
--   an answer and a repeated attempt come to. libcurl is the record Curl, over any state of its
--   own; a transfer is a tree of the callbacks that it makes.
-- - Provisioning: doProvisioningWithSe of provisioningengine.c. Memory is pointers, blocks and
--   cleanup; Peer is what the loop calls and its variables, Branches what it does for each
--   relation, Round one round and the loop, Start what stands before and behind the loop. Owned
--   and Laws say which blocks are the loop's and what it relies on, and Rootpa puts seclient.c,
--   xmlmessagehandler.c and pacmp3.c in the place of the parameter Peer.
-- - Xml: xmlmessagehandler.c. Document is what is read from a document of libxml2, Parse the loop
--   over the commands of a message (with uploadTrustlet of provisioningengine.c), Results the
--   results that are written, Message handleCommandAndFillResponse and handleXmlMessage, Requests
--   the system information and the request for an installation.
-- - Base: names that the other files share, Boolean tests, lists, words and buffers. Tests: a
--   small platform, and the theorems at concrete inputs.
--
-- A function of the source is a function of the same name in snake_case; arguments that the
-- source passes by reference come back in the result. uint32_t arithmetic wraps where it is
-- written with add32. The TCI buffer is a list of ten 32-bit words, the mapped buffer a list of
-- bytes, and structures in it are read at the offsets that a compiler gives the types of
-- common/MobiCore/inc. realloc keeps the bytes and counts in the handle that the buffer may have
-- moved; what is then read through a pointer from before is a parameter, stale_bytes of the
-- interface Platform.
--
-- The loop of doProvisioningWithSe has fuel for a number of rounds: each request that a server
-- asks for costs some of its budget, and at most three rounds more are needed. The loop of
-- httpCommunicate recurs on the attempts that are left, thirty at first. The loop of
-- executeOneCmpCommand has fuel for 2^32 rounds: each round asks for a buffer larger than the
-- last, of a size below 2^32, so that the fuel is enough.
--
-- Not modelled: logging, the branch for Windows, tests of the addresses of variables for NULL,
-- libxml2 and base64, which are parameters, the files of the XML schemas, the parts of RootPA for
-- Android, and MobiCoreDriverLib, the driver library and the daemon, which RootPA calls through
-- the interface Platform. The loop of doProvisioningWithSe takes what it calls as operations of
-- the interface Peer. The thread of commandhandler.c is modelled around any action in the place
-- of doProvisioningWithSe. The callbacks of the caller are not NULL, and only the reports to them
-- are kept.
pub mod Base
pub mod Cmp
pub mod World
pub mod State
pub mod Registry
pub mod Pacmtl
pub mod Pacmp3
pub mod Channel
pub mod ContentManager
pub mod CommandHandler
pub mod Uri
pub mod SeClient
pub mod Provisioning
pub mod Xml
mod Tests
