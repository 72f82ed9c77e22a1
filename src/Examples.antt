-- ===== src/Examples.antt =====
-- A small platform, and the theorems of the development at concrete inputs.
mod Values
mod Store
mod Toy
mod Coding
mod Codec
mod Log
mod Wire
mod Cluster
mod Sessions
mod Links
mod Replicas
mod Neighbours
mod Loops
mod Client
mod Feed
mod Plugins
mod Starts
mod Keys
