-- ===== src/Markdown.antt =====
-- apply_markdown_to_weechat (src/util.cpp): Markdown of Atom posts as WeeChat colour codes.
pub mod Spans
pub mod Blocks
pub mod OneLine
pub mod Inline
pub mod Lines
pub mod Shown
pub mod Count
mod Tests
