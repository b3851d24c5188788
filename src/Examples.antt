-- ===== src/Examples.antt =====
-- Runs of the models at concrete inputs.
mod Selecting
mod Cleaning
mod Working
mod Scheduling
mod Controlling
mod Classifying
mod Reading
mod Storing
mod Verifying
mod Training
mod Serving
mod Retrying
mod Guarding
