-- ===== src/Tests.antt =====
-- Runs of the definitions on concrete inputs, and an instance of each theorem that has hypotheses.
mod Monitoring
mod Stopping
mod Connecting
mod Alerting
mod Workflow
mod Phases
mod Describing
mod Storing
mod Streaming
mod Signing
mod Clouding
mod Powering
mod Serving
mod Registering
mod Commanding
