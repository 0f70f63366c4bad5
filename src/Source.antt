-- ===== src/Source.antt =====
-- src/Basic/SourceManager.cpp with include/blocktype/Basic/SourceManager.h and SourceLocation.h:
-- encoded locations, the line table of a file, and the manager of files and macro expansions.
pub mod Location
pub mod File
pub mod Manager
mod Examples
