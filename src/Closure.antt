-- ===== src/Closure.antt =====
-- continuo_python_runtime/closure.py: the files of the repository that a script reaches by imports.
pub mod Paths
pub mod Imports
pub mod Files
pub mod Search
pub mod Correct
pub mod Ends
pub mod Laws
pub mod Packages
