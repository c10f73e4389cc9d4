-- ===== src/SeClient.antt =====
-- The client of the service enabler, rootpa/Code/Common/seclient.c: strings in memory, the `Link`
-- header, the callbacks for libcurl, its options, and one exchange with the server. What is read
-- past the end of the memory at hand is undefined, `none`. libcurl and the clock are parameters.
pub mod Text
pub mod Header
pub mod Transfer
pub mod Options
pub mod Communicate
pub mod Answers
pub mod Http
