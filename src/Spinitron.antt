-- ===== src/Spinitron.antt =====
-- internal/adapters/outbound/spinitron: the shows and personas of the station's catalog, from pages
-- of a web service through a cache.
pub mod Pages
pub mod Cache
pub mod NextPage
pub mod Parsing
pub mod Client
