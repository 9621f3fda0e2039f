-- ===== src/Tests.antt =====
-- Runs at concrete inputs, and the theorems at inputs that meet their hypotheses.
mod Codepages
mod Packets
mod Links
mod Uris
mod Copies
mod Answers
mod Listings
mod Walks
mod Mounts
mod Disks
mod Downloads
mod Uploads
