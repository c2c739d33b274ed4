-- ===== src/Driver.antt =====
-- entry/src/main/cpp/example_driver.cpp: the driver between the terminal, the local shell and SSH.
pub mod Request
pub mod Session
