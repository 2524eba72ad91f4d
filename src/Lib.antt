-- ===== src/Lib.antt =====
-- Keystone, an enclave framework for RISC-V: the security monitor (sm/src), the memory of the
-- runtime (runtime), the edge calls of the SDK (sdk/src/edge) and the Linux driver
-- (linux-keystone-driver). The driver allocates the memory of an enclave and calls the monitor for
-- it; the runtime manages that memory inside the enclave; an edge call passes its data through a
-- buffer that the enclave shares with its host.
--
-- The monitor runs in machine mode. It allocates PMP regions (memory ranges that the hardware
-- protects), keeps a table of enclaves, switches a hart between the operating system and an
-- enclave, measures and attests enclaves, and answers the calls of both sides.
--
-- Files, and the code that each models:
--   Base: names of the library, Boolean tests and machine words. Base.Outcome is the result of
--     code that may hang the hart (sm_assert, sbi_hart_hang); Base.Words has the bit operations
--     of w-bit words.
--   Pmp: sm/src/pmp.c and pmp.h. Pmp.State is the table of regions and the two bitmaps, Pmp.Init
--     allocates and releases, Pmp.Regs writes the registers of one hart. Pmp.Isolation and
--     Pmp.Init.Total treat the allocation, Pmp.Regs.Program and Pmp.Regs.Reset the registers, and
--     Pmp.Sharing the registers that regions share.
--   Sm.State: the data of sm/src/enclave.h, thread.h and cpu.h. A Machine is what the harts share
--     (PMP table, enclaves, cpus, the PMP registers of each hart, memory), a Hart what one hart has
--     of its own during a trap. OpenSBI is the record OpenSbi.
--   Sm.Ipi: sm/src/ipi.c. Sm.Thread: sm/src/thread.c. Sm.Switch: the two context switches of
--     sm/src/enclave.c, and cpu.c. Sm.Measure: sm/src/attest.c.
--   Sm.Enclave, Sm.Create, Sm.Destroy, Sm.Run, Sm.Attest: the calls of sm/src/enclave.c.
--     Sm.Run.Cases and Guards have their branches and tests, Sm.Run.Results what they do by the state
--     of the enclave.
--   Sm.Calls: which hart is in which enclave, over sequences of those calls; Sm.Create.Effect and
--     Sm.Create.Isolation: what a creation does to the machine and to the PMP regions.
--   Sm.Boot: sm/src/sm.c. Sm.Sbi: sm/src/sm-sbi.c and sm-sbi-opensbi.c.
--   Rt: the runtime (runtime). Rt.Words has runtime/include/mm/vm_defs.h and the addresses of
--     runtime/mm/vm.c. Rt.Freemem is runtime/mm/freemem.c: a list of pages that is linked through
--     their first words; Rt.Freemem.Queue, Laws and Refine set it beside a queue of pages, Init is
--     about its start. Rt.Freemem.Loader is the loader's allocator, runtime/mm/freemem_ld.c.
--     Rt.Table is the walk of runtime/mm/mm.c, with the entries of runtime/include/mm/vm.h, and
--     Rt.Table.Ops the operations on it. Rt.Table.Walk says which memories hold page tables, Grow,
--     Store and Leaf what stores to them do, Space adds the free pages, and Create, Map, Alloc and
--     Free treat the operations.
--   Rt.Merkle: runtime/crypto/merkle.c, the tree of hashes of the pages outside. Rt.Merkle.Alloc is the
--     allocator of its nodes, Insert merk_insert. Rt.Merkle.Tree says which memories keep a tree, and
--     Verify, Climb, Path, Grow, Grown and Root relate the walks to it; Tamper, Added, Deep and Region
--     are about a memory that others change, an insertion, a deep tree and the pool of nodes.
--   Rt.Swap: runtime/mm/page_swap.c, with Rt.Swap.Round on a swap of two pages.
--   Rt.Calls: runtime/call/syscall.c and runtime/call/io_wrap.c, with Rt.Calls.Bytes on bytes that are
--     read and written, Bounds on the reads, Sent and Served on the writes, and Moved on the shared
--     buffer at other addresses.
--   Edge: sdk/src/edge. Edge.Shared and Edge.Bounds are about edge_call.c, Edge.Dispatch about
--     edge_dispatch.c, and Edge.Syscall about edge_syscall.c.
--   Driver: linux-keystone-driver. Driver.State has its data, and the records Kernel and Monitor of
--     what it calls; Driver.Pages is keystone-page.c, Driver.Enclaves keystone-enclave.c,
--     Driver.Ioctl keystone-ioctl.c, Driver.Mmap keystone.c. Driver.Live, Steps, Commands, Requests
--     and Switch are about the table of ids, Driver.Destroy about the end of an enclave, and
--     Driver.Sizes about the blocks of pages.
--   Tests: evaluations, and each theorem at a concrete input.
--
-- A function of the C code is a function of the same name; a static variable that it changes is in
-- the state that it takes and returns, an out-parameter is an option, and the labels of a `goto` are
-- functions. The constants are those of sm/src/platform/generic/platform.h: 16 enclaves of 8
-- regions, 8 PMP registers, 16 PMP regions. Addresses and registers are 64-bit words.
--
-- The memory of the runtime is a function from the address of an aligned word, as the runtime sees
-- it, to the word. An assertion of the runtime that fails ends the enclave (`hang`).
--
-- A page that is swapped out is encrypted with its counter, and the hash of page and counter goes into
-- the tree. A walk of merk_verify has a round for each level of the tree and more; `none` is a walk
-- that has not ended. A system call writes its arguments behind the head of the shared buffer, and the
-- host, which runs while the enclave is stopped, leaves any bytes there. The call's own record stands
-- beside those bytes. A copy from or to the application reaches all its bytes. The host has
-- the buffer at addresses of its own.
--
-- The ioctls of the driver are steps on its table and on the kernel's memory for enclaves, a function
-- from addresses. To use an enclave that has been freed, or a NULL pointer, is `hang` there.
--
-- Most loops run over a table, for as many rounds as it has entries. __walk_create starts again at
-- the root after each table that it adds; two tables can be missing, so three rounds are its fuel.
-- spa_init has a round for each page and one more. alloc_pages, free_pages and test_va_range count in
-- 32 bits, and are modelled for counts below 2^32. The loop over the pages of an enclave
-- (Sm.Measure.hash_pages) is on fuel, (stop - from) / 4096 + 2 rounds: each round before the last is
-- one page below `stop`.
--
-- The control registers of a hart are words of their own: sip, sie and sstatus are not views of mip, mie
-- and mstatus, and every value can be written. The lock bit of a PMP entry is not modelled, since the
-- monitor never sets it. The page offset of an mmap in the driver is any number, whatever the kernel
-- lets through.
--
-- A call is one step: the model has no other hart between the sections under encl_lock. The
-- handler of an interrupt that hangs leaves the registers of its hart as they were (Sm.Ipi.settled).
--
-- Parameters: OpenSBI's request to every hart, its mask and sbi_memset (OpenSbi), the hash, the
-- signature and the key derivation (Crypto), copy_to_sm and copy_from_sm, which are assembly
-- (UserCopy), the keys of the boot ROM (BootKeys), and the bytes behind the attested data
-- (`stack`); the kernel's kmalloc, page allocators and idr_alloc (Kernel), and for the driver the
-- monitor's calls (Monitor); the hash and the cipher of the runtime (Sha256, Aes), its random bytes,
-- the host behind sbi_stop_enclave (EdgeHost), and its C library (Posix).
--
-- Not modelled: the traps and the memory access in assembly, the other platforms and the plugins,
-- the cryptographic code, prints; of the runtime the choice of the page to evict and the page faults,
-- the system calls with a path, those of Linux and of the network and their dispatch, and the ELF
-- loader; the rest of the SDK, the boot ROM; the bytes in the pages of the driver, and ioctls that overlap.

pub mod Base
pub mod Pmp
pub mod Sm
pub mod Rt
pub mod Edge
pub mod Driver
pub mod Tests
