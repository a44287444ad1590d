-- ===== src/Nccl.antt =====
-- The NCCL device-function wrapper below nccl/: the selection of a target and the rewriting of the
-- generated PTX.
pub mod Table
pub mod KernelInfo
pub mod Hoist
pub mod Redirect
pub mod Fallback
pub mod Toml
pub mod Shell
pub mod DevfuncProbe
pub mod Devfunc
pub mod Expand
pub mod Instrument
pub mod Workdir
pub mod Wrapper
