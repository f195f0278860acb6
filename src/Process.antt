-- ===== src/Process.antt =====
-- The lists of kernel/process/process.cpp. A list is the list of its nodes in order; a node stands at
-- an address, by which the code compares pointers, and `next` of the last node is `nullptr`.
pub mod Context
pub mod Processes
pub mod Threads
pub mod Timer
