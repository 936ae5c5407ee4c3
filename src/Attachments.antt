-- ===== src/Attachments.antt =====
-- backend/attachment.py and the handlers of backend/main.py for the files that users attach to a run.
mod Model
mod Extraction
mod Pipeline
mod Citation
mod Storage
mod Sound
mod Reading
mod Examples
