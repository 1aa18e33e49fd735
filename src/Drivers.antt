-- ===== src/Drivers.antt =====
-- kernel/src/drivers: the serial port and the interrupt controller.
pub mod Uart
pub mod Plic
