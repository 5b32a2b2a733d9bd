-- ===== src/Imap.antt =====
-- worker/imap: the parts of the IMAP back end that keep sequence numbers and UIDs in step.
pub mod SeqMap
pub mod Expunge
