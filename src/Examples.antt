-- ===== src/Examples.antt =====
-- Runs of the definitions on concrete inputs.
mod World
mod Run
mod Values
mod Misfires
mod Wakes
mod Controls
mod Children
mod Claims
