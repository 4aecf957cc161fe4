-- ===== src/Rules.antt =====
-- Rules without effects: kubelet's reservations, the network checks, swap and the runner of
-- validations.
pub mod Reserved
pub mod Network
pub mod NetworkValid
pub mod Swap
pub mod SwapOff
pub mod Runner
