-- ===== src/Tests.antt =====
-- Runs of the model at concrete inputs, and instances of the theorems.
mod Models
mod Server
mod Devices
mod Links
mod Boards
mod Relays
mod Tunnel
mod Cameras
mod Services
mod Processes
mod Events
