-- ===== src/Xml.antt =====
-- The messages of the service enabler, rootpa/Code/Common/xmlmessagehandler.c: what is read from a
-- document, the commands that are run, and the results that are written. libxml2 and base64 are
-- parameters; a text is a `String`.
pub mod Document
pub mod Results
pub mod Parse
pub mod Message
pub mod Requests
