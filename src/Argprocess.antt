-- ===== src/Argprocess.antt =====
-- awscli/argprocess.py: the values of arguments on the command line, and their shorthand syntax.
pub mod Parse
pub mod Commas
pub mod Shapes
pub mod Shorthand
mod Tests
