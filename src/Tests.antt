-- ===== src/Tests.antt =====
-- Runs of the models on concrete inputs, and the theorems at concrete inputs.
mod Auth
mod Mcp
mod Filter
mod Rules
mod Pipeline
mod Run
mod Registration
mod Config
mod Provision
mod Upload
mod WebDav
mod CalDav
mod Forms
mod Queue
mod Web
mod FailToBan
