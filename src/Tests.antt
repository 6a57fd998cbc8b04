-- ===== src/Tests.antt =====
-- The theorems at concrete inputs.
mod Fixtures
mod Selfheal
mod Pair
mod Clients
mod Sightings
mod Answers
mod Policies
mod Queries
mod Resolvers
mod Feeds
mod Lookalikes
mod Queues
mod Sources
mod Devices
mod Plane
