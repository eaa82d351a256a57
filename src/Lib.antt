-- ===== src/Lib.antt =====
-- A verification library for gigaboot, a UEFI boot loader that takes a kernel from local media or
-- over IPv6 and UDP from a boot host.
--
-- The program and its parts, with the file of this library that models each:
--
--   lib/string.c (memset, memcpy, memcmp, strlen) is Cstring. Memory is a list of bytes; a pointer
--   into it is the list from there on. A write behind the end of a buffer makes its list longer, so that
--   an overflow shows in the length. An `int` result is a ℤ.
--
--   src/inet6.c and src/inet6.h, a minimal IPv6 stack, are Inet6: Addr (addresses derived from a
--   MAC address), Checksum (htons and the Internet checksum), Packet (headers, their bytes, the
--   static variables Ip6State), Send (udp6_send, icmp6_send, ip6_init) and Recv (eth_recv and the
--   handlers below it; recv_udp is _udp6_recv), and Text (ip6toa). Deliver joins the two sides.
--
--   src/netifc.c, the network interface, is Netifc: the free list of transmit buffers threaded
--   through a heap, the frames in flight, and the multicast filters; Netifc/Timer has the timer and
--   netifc_close. netifc_open is in Open, and netifc_poll in Poll.
--
--   src/netboot.c and netboot.h, the boot server, are Netboot (handle is the body of udp6_recv up
--   to the label `transmit`) and Poll (advertise and netboot_poll).
--
--   src/nbserver.c, the boot host, is Nbserver (io, its socket being a list of answers),
--   Nbserver/Xfer (xfer; Nbserver/Xfer/Server puts the boot server behind the socket, and
--   Nbserver/Channel a network that loses datagrams before it) and Nbserver/Main (the command line,
--   the loop over beacons, and main). Netboot/Transfer has the data messages of its loop as a list.
--
--   src/osboot.c is Osboot: Files (the three file buffers and netboot_get_buffer), MemoryMap
--   (e820type and process_memory_map), Acpi (find_acpi_root), Kernel (load_kernel), Boot
--   (boot_kernel and install_memmap; leave_firmware is its part from process_memory_map on) and Main
--   (try_local_boot and the loop of efi_main; Main/Start is what stands before the loop). Main/Rounds
--   and Main/Filled run that loop over the frames of a transfer, Main/Sent up to the kernel.
--
--   lib/console-printf.c is Console, lib/loadfile.c is LoadFile and lib/goodies.c is Goodies. The
--   applications src/fileio.c, src/showmem.c and src/usbtest.c are Samples.
--
-- How the parts interact: netboot_poll calls netifc_poll, which gives finished buffers back to the
-- pool and hands a received frame to eth_recv. The stack calls the application's udp6_recv, a
-- parameter of Inet6 that Netboot fills, and the application answers by udp6_send, which takes a
-- buffer from the pool and hands it to the firmware. Poll puts these together into one Server,
-- Poll/Wire puts a peer with the same stack at the other end,
-- and Poll/Network the socket of the boot host behind that peer. efi_main opens the interface, polls
-- the Server until it asks to boot, and hands its files to boot_kernel.
--
-- The firmware is a parameter: the record Snp has the status of Transmit and the number of filters
-- the hardware takes; a PollEvent has what the firmware answers during one pass of the main loop;
-- OpenFirmware, BootFirmware and Firmware have the answers to netifc_open, boot_kernel and LoadFile.
-- The hypothesis IsHonest says that GetStatus gives back only buffers that were handed over.
--
-- C words are native numbers with the remainder by 2 ^ w written out. A frame's bytes are the list
-- of the bytes in memory, with a hypothesis IsBytes where it matters. `none` as the result of a
-- function that returns an Option of a state is a run that never returns: the endless loop of
-- eth_put_buffer after "fatal: eth buffer ... bad magic". Loops are structural recursion, but for
-- the carry loop of checksum, which runs on fuel 3: a uint32_t has no carry left after two rounds.
--
-- In Kernel, pages that AllocatePages gave out are a list, and what load_kernel writes is the content
-- of those pages; the image is the memory from its first byte on, which may go on behind its size.
--
-- A network that loses datagrams is given by what it does to each message: the rounds that it loses,
-- five at most being sent. A main loop runs over the list of what the firmware, or the socket, answers
-- to its passes.
--
-- Not modelled: what is printed, hello.c and eth_dump_status and dump_graphics_modes, which only
-- print, and start_kernel (assembly). Of the socket calls of nbserver.c only the outcome is seen. What
-- an EFI binary that efi_main has started does is left out: the server goes on as it was. third_party
-- holds copies of other projects; what the code calls of them is a parameter.
pub mod Base
pub mod Console
pub mod Cstring
pub mod Goodies
pub mod Inet6
pub mod LoadFile
pub mod Nbserver
pub mod Netboot
pub mod Netifc
pub mod Open
pub mod Osboot
pub mod Poll
pub mod Samples
