-- ===== src/Inotify.antt =====
-- inotify/inotify_dtree.c: a cache of directory trees, kept up to date by inotify events.
pub mod Cache
pub mod Watcher
pub mod Roots
pub mod Tree
pub mod Events
pub mod Invariant
pub mod Loop
pub mod Commands
pub mod Main
mod Tests
