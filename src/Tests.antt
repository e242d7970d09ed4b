-- ===== src/Tests.antt =====
-- Every theorem of the header's list at a concrete input, where its conditions hold.
mod Structures
mod Codecs
mod Routes
mod Caches
mod Headers
mod Lists
mod Pools
mod Refreshing
mod Sessions
mod Texts
