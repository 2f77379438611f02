-- ===== src/Examples.antt =====
-- Runs of the model on concrete inputs, with the theorems applied to them.
mod Policy
mod Routing
mod Responses
mod Pipeline
mod World
mod Chats
mod Changes
mod Keys
mod Inference
mod Tokens
mod Config
mod Threads
mod Applications
mod Texts
mod DevTokens
mod Logs
