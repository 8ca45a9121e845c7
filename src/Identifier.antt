-- ===== src/Identifier.antt =====
-- server/identifier: the properties of identifier types, the hints given to plugins and which plugins
-- they admit, with the filters of server/pluginutil.
pub mod Types
pub mod Hints
pub mod Listings
