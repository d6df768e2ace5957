-- ===== src/Preview.antt =====
-- Previews of links (src/connection/helpers.cpp): the attributes, entities and meta tags of a page.
pub mod Tags
pub mod Page
pub mod Escaped
pub mod Offers
pub mod Graph
pub mod Card
pub mod First
pub mod Image
mod Tests
