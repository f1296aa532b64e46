-- ===== src/Providers.antt =====
-- internal/providers: the adapters of the providers.
pub mod Chat
pub mod Turns
pub mod Fields
pub mod Anthropic
pub mod Gemini
pub mod OpenAi
pub mod Transcription
pub mod Calls
pub mod Registry
pub mod Pacing
