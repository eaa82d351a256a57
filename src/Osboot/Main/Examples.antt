-- ===== src/Osboot/Main/Examples.antt =====
-- A run of efi_main without a kernel on the boot medium.
use gigaboot20x.Base.{
  take, IsBytes, ap, ◌∙◌, none, ◌≢◌, suc, zero, length, replicate, length-replicate, ℕ, ◌*◌, ◌≡◌,
  refl, true, false, some, List, [], ◌∷◌, arith,
}
use gigaboot20x.Netifc.Examples.{accepting}
use gigaboot20x.Netifc.Carve.{buffers_from}
use gigaboot20x.Open.Examples.{good_firmware}
use gigaboot20x.Poll.Examples.{done_event, done_event-IsHonest}
use gigaboot20x.LoadFile.{Firmware, Held}
use gigaboot20x.Osboot.Boot.Examples.{two_sectors, next_address, boot_firmware}
use gigaboot20x.Netifc.Examples.{one_address, one_buffer, one_buffer-IsPool}
use gigaboot20x.Netifc.Timer.{netifc_close}
use gigaboot20x.Inet6.Examples.{stack_a}
use gigaboot20x.Poll.{Server}
use gigaboot20x.Poll.Network.Examples.{link_b, link_b-IsLink}
use gigaboot20x.Poll.Network.Whole.{IsWaiting, AreBlocks}
use gigaboot20x.Osboot.Kernel.{Pages, is_loadable}
use gigaboot20x.Osboot.MemoryMap.{process_memory_map}
use gigaboot20x.Osboot.Boot.{Booted, install_memmap}
use gigaboot20x.Osboot.Main.{
  kbufsize, rbufsize, BootMedia, Memory, Pass, RunEnd, in_kernel, Machine, is_efi_binary, main_loop,
}
use gigaboot20x.Osboot.Main.Start.{efi_main}
use gigaboot20x.Osboot.Main.Safety.{IsEnding}
use gigaboot20x.Osboot.Main.Sent.{main_loop-sent, transfer_passes}
use gigaboot20x.Osboot.Files.{NbFile}
use gigaboot20x.Netboot.{Nb}
use gigaboot20x.Netboot.Buffers.{AreFiles}
use gigaboot20x.Netboot.Transfer.{total_length, concat}
use gigaboot20x.Netboot.Examples.{opened_nb}
use gigaboot20x.Osboot.Main.Run.{IsMemory, efi_main-Finishes}

-- Every call fails.
abbrev no_file : Firmware
no_file = record {
  open_image = 2;
  open_file_system = 2;
  open_volume = 2;
  open_file = 2;
  get_info = 2;
  allocate_pool = 2;
  read = 2;
  file_size = 0;
  read_size = 0;
  bytes = [];
}

abbrev empty_media : BootMedia
empty_media = record {
  kernel = no_file;
  ramdisk = no_file;
  cmdline = no_file;
  ramdisk_address = 0;
  cmdline_address = 0;
  no_size = 0;
}

-- n bytes of 0.
unfoldable blank : ℕ → List ℕ
blank n = replicate n 0

length-blank : (n : ℕ) → length (blank n) ≡ n
unfolding blank
length-blank n = length-replicate n 0

abbrev blank_memory : Memory
blank_memory = record {
  kernel_buffer = blank kbufsize;
  ramdisk_buffer = blank rbufsize;
  old_page = [];
  cmdline_address = 65536;
  key = 0;
}

blank_memory-IsMemory : IsMemory blank_memory
blank_memory-IsMemory = record { kernel = length-blank kbufsize; ramdisk = length-blank rbufsize }

abbrev nothing_held : Held
nothing_held = record { image = 0; file_system = 0; root = 0; file = 0; pool = 0 }

abbrev one_pass : Pass
one_pass = record { event = done_event; load_image = 0; start_image = 0 }

efi_main-Finishes_example :
    (e : RunEnd) × (efi_main next_address
        (boot_firmware 0)
        blank_memory
        accepting
        empty_media
        nothing_held
        good_firmware
        1
        (λ a. record { magic = 0; next = 0 })
        (one_pass ∷ [])
      ≡ some e)
    × IsEnding (buffers_from 16 8192) 1 e
efi_main-Finishes_example =
    efi_main-Finishes next_address (boot_firmware 0) blank_memory accepting good_firmware 1
      empty_media nothing_held (λ a. record { magic = 0; next = 0 }) (one_pass ∷ [])
      blank_memory-IsMemory (omega arith) (omega arith) (done_event-IsHonest, tt)

-- A kernel of two sectors with 31 blocks of 0 behind them.
abbrev kernel_head : List ℕ
kernel_head = take 1024 (two_sectors 1)

abbrev kernel_blocks : List (List ℕ)
kernel_blocks = kernel_head ∷ replicate 31 (blank 1024)

abbrev big_file : NbFile
big_file = record { buffer = blank 65536; size = 65536; offset = 0 }

abbrev big_nb : Nb
big_nb = record opened_nb {
  files = record { kernel = big_file; ramdisk = big_file; cmdline = big_file };
  nb_online = 1;
}

big_file-length : length big_file.buffer ≡ 65536
big_file-length = length-blank 65536

big_nb-AreFiles : AreFiles big_nb.files
big_nb-AreFiles =
    ((big_file-length, omega arith), (big_file-length, omega arith), (big_file-length, omega arith))

IsBytes-blank : (n : ℕ) → IsBytes (blank n)
unfolding blank
IsBytes-blank zero = tt
IsBytes-blank (suc n) = (omega arith, IsBytes-blank n)

blank_blocks-AreBlocks : (n : ℕ) → AreBlocks (replicate n (blank 1024))
blank_blocks-AreBlocks zero = tt
blank_blocks-AreBlocks (suc n) =
    ((IsBytes-blank 1024, omega (arith, length-blank 1024)), blank_blocks-AreBlocks n)

total_length-blank_blocks : (n : ℕ) → total_length (replicate n (blank 1024)) ≡ n * 1024
total_length-blank_blocks zero = omega arith
total_length-blank_blocks (suc n) = omega (arith, length-blank 1024, total_length-blank_blocks n)

kernel_head-length : length kernel_head ≡ 1024
kernel_head-length = refl

kernel_blocks-total_length : total_length kernel_blocks ≡ 32768
kernel_blocks-total_length = omega (arith, kernel_head-length, total_length-blank_blocks 31)

kernel_head-IsBytes : IsBytes kernel_head
kernel_head-IsBytes = ground arith

kernel_blocks-is_loadable : is_loadable (concat kernel_blocks) 32768 ≡ true
unfolding is_loadable
kernel_blocks-is_loadable = refl

kernel_blocks-plain : is_efi_binary (concat kernel_blocks) ≡ false
kernel_blocks-plain = refl

map_taken : process_memory_map (boot_firmware 0).first_map ≡ some (7, [])
unfolding process_memory_map
map_taken = refl

next_address-grants : (held : List Pages) (limit pages : ℕ) → next_address held limit pages ≢ none
next_address-grants held limit pages e = absurd (ground (arith, e))

abbrev big_server : Server
big_server = record {
  host = record { ip = stack_a; net = one_buffer; app = big_nb };
  timer_ms = 100;
}

big_server-IsWaiting : IsWaiting one_address big_server
big_server-IsWaiting = record {
  online = refl;
  calm = refl;
  ip = refl;
  ip_bytes = ground arith;
  mac = refl;
  pool = one_buffer-IsPool;
  idle = refl;
}

abbrev ready_machine : Machine
ready_machine = record {
  server = big_server;
  kernel_address = 4096;
  ramdisk_address = 8192;
  net_timer = 1;
  images_run = [];
}

main_loop-sent_example :
    (image : List ℕ) × (b : Booted) × (main_loop next_address
        (boot_firmware 0)
        blank_memory
        accepting
        []
        (transfer_passes accepting link_b big_server.host.ip.ll_ip6_addr 2 kernel_blocks [])
        ready_machine
      ≡ some (in_kernel image (total_length kernel_blocks) b (netifc_close 1)))
    × (take (total_length kernel_blocks) image ≡ concat kernel_blocks)
    × (b.outcome ≡ install_memmap 0)
main_loop-sent_example =
    main_loop-sent next_address (boot_firmware 0) blank_memory next_address-grants 7 [] map_taken
      refl accepting link_b one_address [] 2 kernel_blocks [] ready_machine link_b-IsLink
      big_server-IsWaiting
      ((kernel_head-IsBytes, omega (arith, kernel_head-length)), blank_blocks-AreBlocks 31)
      (omega arith) big_nb-AreFiles (ground arith) (omega (arith, kernel_blocks-total_length))
      (omega arith) (omega (arith, kernel_blocks-total_length))
      (ap (is_loadable (concat kernel_blocks)) kernel_blocks-total_length
        ∙ kernel_blocks-is_loadable)
      kernel_blocks-plain
