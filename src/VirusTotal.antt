-- ===== src/VirusTotal.antt =====
-- sentinel/intel/virustotal_client.py, in two parts: the limit on requests, and the client.
pub mod Bucket
pub mod Client
