-- ===== src/Checks.antt =====
-- The theorems at concrete inputs, for which their conditions hold.
mod Basics
mod Blocks
mod Boots
mod Devices
mod Dispatches
mod Firmware
mod FrameCalls
mod Lists
mod Locks
mod Prints
mod Processes
mod Processors
mod Screens
mod Spaces
mod Tables
mod ThreadLists
