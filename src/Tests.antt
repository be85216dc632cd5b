-- ===== src/Tests.antt =====
-- Tests of the model at concrete inputs, and each theorem with hypotheses at an input that meets them.
mod Enrolment
mod Contract
mod Gateway
mod Database
mod Store
mod Service
mod Histories
mod Routes
mod Commands
mod Passkeys
mod Browser
