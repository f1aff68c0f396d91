-- ===== src/Generator.antt =====
-- cmd/evercoregen: the directives in a project's files, and the files made of them.
pub mod Directives
pub mod Files
pub mod Located
pub mod Project
pub mod Output
