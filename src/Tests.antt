-- ===== src/Tests.antt =====
-- The theorems at concrete inputs.
mod Sorting
mod Shuffling
mod Planning
mod Scheduling
mod Iterating
mod Collecting
mod Jobs
mod Storing
mod Committing
mod Caching
mod Joining
mod Reading
mod TextFiles
