-- ===== src/Vm.antt =====
-- The maps of the virtual machine: their keys and the three representations.
pub mod Key
pub mod Table
pub mod Map
