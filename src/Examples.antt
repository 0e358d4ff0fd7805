-- ===== src/Examples.antt =====
-- Concrete runs of the model, and the theorems at concrete inputs.
mod Scripting
mod Data
mod Core
mod Running
mod Backends
mod Loading
mod Compositors
mod Wayland
mod Sockets
mod Daemons
mod Clients
mod Threads
