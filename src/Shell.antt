-- ===== src/Shell.antt =====
-- shell.c: the line editor of `shell_start`, and `get_formatted_prompt`.
pub mod Editor
pub mod Input
pub mod Prompt
pub mod Tests
