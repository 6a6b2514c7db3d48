-- ===== src/Commands.antt =====
-- safety/commands.py: the default-deny policy for commands.
pub mod Tables
pub mod Argv
pub mod Options
pub mod Environment
pub mod Executable
pub mod Gxx
pub mod Prepare
pub mod Operands
pub mod Positional
pub mod Clean
pub mod Prepared
pub mod Runnable
pub mod Undenied
pub mod Compiled
pub mod Git
pub mod Python
pub mod Declared
