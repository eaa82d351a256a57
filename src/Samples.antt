-- ===== src/Samples.antt =====
-- src/fileio.c, src/showmem.c and src/usbtest.c: sample applications.
pub mod FileIo
pub mod ShowMem
pub mod UsbTest
pub mod Examples
