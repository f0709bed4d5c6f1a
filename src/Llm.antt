-- ===== src/Llm.antt =====
-- packages/llm/src/rca_llm: the client through which every call of a language model goes.
pub mod Client
mod Tests
