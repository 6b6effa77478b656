-- ===== src/Examples.antt =====
-- Concrete runs of the model.
mod Data
mod Tickets
mod Stores
mod Matches
mod Servers
mod Policies
mod Proposals
mod Players
mod Regions
mod Requests
mod Ratings
mod Completions
mod Searches
mod Rounds
mod Turns
