-- ===== src/Tests.antt =====
-- The program on concrete inputs.
mod SampleJson
mod SamplePki
mod Samples
mod HubExamples
mod WireExamples
mod HubRuns
mod LoadExamples
mod TopsideExamples
mod NetExamples
mod SnorkelExamples
mod SystemRuns
mod SystemExamples
