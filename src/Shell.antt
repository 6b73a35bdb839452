-- ===== src/Shell.antt =====
-- app/app/src/app: the app's own logic behind its screens.
pub mod Bridge
pub mod UserStore
pub mod Fences
pub mod CardTree
pub mod CardLint
pub mod Plan
