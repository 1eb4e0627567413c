-- ===== src/Tests.antt =====
-- Tests of the model on small inputs, and the theorems applied to such inputs.
mod Samples
mod Ogg
mod Words
mod Transcription
mod Servers
mod Clients
mod Stats
mod Connection
mod Speech
mod Logging
mod Settings
mod Lifecycle
mod Simulation
mod Delays
mod Service
mod Buffer
