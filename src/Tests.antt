-- ===== src/Tests.antt =====
-- Tests and examples: the theorems about each part of the kernel at concrete states.
mod Lists
mod Pages
mod Spaces
mod Strings
mod Tables
mod Formats
mod Boots
mod Trees
mod Commands
mod Input
mod Traps
mod Slobs
mod Processes
