-- ===== src/Examples.antt =====
-- Small runs of the model.
mod Downloads
mod Picks
mod Codecs
mod Walks
mod Rings
mod PeerRuns
mod Imports
mod Diffs
mod Records
mod Reactors
mod Serving
