-- ===== src/Components.antt =====
-- components/: the `process` functions of components, over the edges and signals of the API. Of the
-- context they use the remaining budget. Logging is left out.
pub mod Muxer
pub mod Demux
pub mod Repeat
pub mod SplitLines
pub mod Equals
pub mod Router
pub mod Drop
pub mod Count
