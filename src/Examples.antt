-- ===== src/Examples.antt =====
-- Concrete inputs, runs of the definitions on them, and the theorems at these inputs.
mod Packets
mod Processes
mod Items
mod Draining
mod Messages
mod Opening
mod Windows
mod Payloads
mod Texts
mod Plugins
mod Windowing
