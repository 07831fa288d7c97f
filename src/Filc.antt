-- ===== src/Filc.antt =====
-- filc, the command line tool.
pub mod Candidates
pub mod Ipfs
pub mod Printing
pub mod Parsing
pub mod Disk
pub mod Deals
pub mod Watcher
pub mod Commands
pub mod Flags
pub mod App
pub mod Node
pub mod Tests
