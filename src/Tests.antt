-- ===== src/Tests.antt =====
-- Runs at concrete inputs: a small cluster, an environment of concrete functions, and each theorem
-- applied to them.
mod Samples
mod Cluster
mod Serving
mod Relaying
mod Gzipping
mod Startup
mod Tunnelling
mod Reading
mod Fetching
mod Announcing
mod Listening
mod Stacking
mod Delivering
