-- ===== src/Tests.antt =====
-- Runs of the definitions at concrete inputs, and the theorems at inputs that meet their hypotheses.
mod Bitmaps
mod GemmTests
mod Reverses
mod Queues
mod Pools
mod Sockets
mod Cubes
mod Handles
mod SetUps
mod Passing
mod Connections
mod Lives
mod Pipes
mod Servers
mod Dispatches
mod Exchanges
mod Logs
mod Demos
mod Sessions
