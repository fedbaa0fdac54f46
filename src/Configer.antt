-- ===== src/Configer.antt =====
-- The configuration (spike/base/Configer.h and Configer.cpp). Var is one `ConfigerVar` with its listeners, Registry
-- the variables by their names and types, and Yaml the reading of a document.
pub mod Var
pub mod Registry
pub mod Yaml
mod Tests
