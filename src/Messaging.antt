-- ===== src/Messaging.antt =====
-- messaging.py: bounded inboxes in one directory, and the bus over them. The file of a recipient is
-- looked up by its stem. A write replaces the file at once (`os.replace`); a failure to write is not
-- modelled. `uuid4` and `time.time()` are arguments.
pub mod Inbox
pub mod Append
pub mod Delivery
pub mod Tests
