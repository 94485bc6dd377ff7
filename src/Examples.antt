-- ===== src/Examples.antt =====
-- The theorems at concrete inputs: toy instances of the libraries, a small relay, and an example of
-- each result.
mod Toy
mod World
mod Running
mod Auction
mod Relayed
mod Bids
mod Headers
mod Chain
mod Node
mod Clients
mod Retrieval
mod Served
mod Starting
mod Calls
mod Interleaved
