-- ===== src/Helper.antt =====
-- src/helper.h and src/helper.cpp: what the wrappers and the drivers share.
pub mod Extremes
pub mod ExtremesLaws
pub mod Ranges
pub mod Clock
pub mod Cores
pub mod Matrix
pub mod Callback
pub mod CallbackRows
