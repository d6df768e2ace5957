-- ===== src/Xhtml.antt =====
-- The rendering of XHTML-IM (src/xmpp/xhtml.cpp): CSS colours and styles, and the tree of elements.
pub mod Color
pub mod Style
pub mod Tree
pub mod Errors
mod Tests
