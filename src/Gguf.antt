-- ===== src/Gguf.antt =====
-- gguf.c: the model file, its vocabulary and tokenizer, its numbers.
pub mod Vocab
pub mod Tokenize
pub mod Text
pub mod Half
pub mod Names
pub mod Loader
pub mod Tensors
pub mod Context
pub mod Weights
pub mod Model
pub mod Generate
pub mod Tests
