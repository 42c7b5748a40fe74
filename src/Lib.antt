-- ===== src/Lib.antt =====
-- rv64-vm, a RISC-V (RV64) virtual machine: the state of a core, its traps, CSRs and interrupts, the
-- integer, floating-point, atomic, compressed and bit-manipulation instructions, the decoder's fields
-- and patterns, the runner on blocks of decoded instructions,
-- address translation with its cache, memory and device accesses, the platform interrupt controller,
-- the core-local interruptor, the virtio devices, the I2C controller and the serial port.
--
-- A core (`Hart`, include/hart.hpp) ticks: it looks at its interrupts, fetches an instruction through
-- the translation cache and memory, decodes it and runs the function of its instruction set, which
-- answers with an `ExecReturn`; a failure becomes a trap, and a success moves the program counter.
-- Loads, stores and atomic instructions go through `MMIO`, which translates the address, finds the main
-- memory or a device there, and tells the reservation and the tracking of self-modifying code. Devices
-- drive the `ip` register of the cores.
--
-- Which file models what:
--   Hart/State, Hart/Status, Hart/Csrs   include/hart.hpp, include/defines/csr.hpp: `Hart`, its modes and
--                                        reservation, the union `status_t`, the CSR numbers and masks
--   Hart/Trap, Hart/Csr, Hart/Ints       src/hart.cpp: `trap`; `csr_read`, `csr_write`; `check_ints` and
--                                        `int_local_pending`
--   Hart/Tick                            src/hart.cpp: `tick`, over an interface for the fetch and for the
--                                        execution of a decoded instruction
--   Isa/Priv, Isa/Zicsr                  src/sets/priv.cpp, src/sets/zicsr.cpp
--   Isa/Rv64i, Isa/Rv64m                 src/sets/rv64i.cpp (loads and stores over an interface for
--                                        `MMIO::read` and `MMIO::write`), src/sets/rv64m.cpp
--   Isa/Rv64a, Isa/Zicboz                src/sets/rv64a.cpp, src/sets/zicboz.cpp, over Mem/Mmio
--   Isa/Rv64c                            src/sets/rv64c.cpp; Expand compares with Isa/Rv64i
--   Isa/Zifencei                         src/sets/zifencei.cpp
--   Isa/Zba, Isa/Zbb, Isa/Zbc, Isa/Zbs   src/sets/zba.cpp, zbb.cpp, zbc.cpp, zbs.cpp
--   Isa/Rv64f, Isa/Rv64d                 src/sets/rv64f.cpp, src/sets/rv64d.cpp, over an interface for the
--                                        host's arithmetic; what both share, and the loads and stores,
--                                        in Isa/Float, with the results below it
--   Isa/Arith                            the casts and signed operators of C++ that those files use
--   Block                                src/block.cpp, include/block_cache.hpp: Compile, Run and Loop, and
--                                        the results in Built, Valid, Found, Steps and Terminates
--   Decode/Fields, Decode/Pattern        include/decode.hpp: extractors and immediates, those of 16-bit
--                                        instructions in Compressed; src/decode.cpp: `register_instr` and
--                                        the match test
--   Decode/Cache                         include/decode.hpp, src/decode.cpp: `decode_inst` and the cache
--   Mem/Map                              include/memory_map.hpp: `MemoryMap`, its `load` and `store`
--   Mem/Mmu                              include/mmu.hpp, include/mmu.inl: `translate`, `translate_impl`;
--                                        below it Permissions and Leaf (lemmas), Again (what a walk leaves
--                                        in the cache), Bare (what the identity mapping leaves there) and
--                                        Frame (what a translation leaves alone)
--   Mem/Mmio                             src/mmio.cpp: `read` and `write` over an interface for devices
--   Mem/Tlb, Mem/SelfMod, Mem/Access     include/tlb.hpp, src/tlb.cpp, include/self_mod.hpp,
--                                        include/defines/traps.hpp
--   Dev/Plic                             src/devices/plic.cpp: the operations; below it Rounds and Search
--                                        (arbitration), Lines, Updates, Registers and Accesses (the lines)
--   Dev/Clint                            src/devices/clint.cpp, over an interface for the host clock
--   Dev/Virtio                           src/devices/virtio: the queue; below it Registers, Blk and Rng, and
--                                        the results in Chain, Drains, Negotiated and Requests
--   Dev/I2c                              src/devices/i2c/i2c-core.cpp, over an interface for the slaves
--   Dev/Pci, Dev/Syscon                  src/devices/pci-host-ecam-generic.cpp, src/devices/syscon.cpp
--   Dev/Uart                             src/devices/uart.cpp; below it Consistent (all reachable states)
--   Bits, Prelude                        lemmas on single bits and masks; shared names and operators
--   Tests                                the theorems applied at concrete states
--
-- A function of the source keeps its name (`exec_CSRRW` is `exec_csrrw`) and takes the core to a new core
-- beside its result. A 64-bit word is a natural number below 2 ^ 64 and each operation wraps where the
-- source's does; the theorems name that bound as a hypothesis where they need it. Arrays of fixed size
-- are functions of their index. A vector or an array that the source may index beyond its end is a
-- function beside its size, and such an access is the result `none`, as is an exception that the host
-- program throws.
--
-- Fuel: the loop over the set bits of a word in the interrupt controller clears one bit in each of its
-- rounds and is given 32, the width of the word; `countr_zero` and `highest_bit` count the bits of the
-- word that they look at.
--
-- `run_blocks` is given one round more than the instructions that it may run, and a theorem shows
-- that this is enough.
--
-- The queue of a virtio device is given 2 ^ 16 rounds, as many as its index has values, and a theorem
-- shows that its loop ends within them.
--
-- The page walk has the three levels of Sv39 and needs no fuel.
--
-- Not modelled: the just-in-time compiler, the arithmetic of the host, host I/O, threads and
-- statistics; the filling of the decoder's tables, the device tree, the debugger stub, the loader and
-- the other devices. A core and its devices take turns: no interleaving within an operation is
-- modelled.
pub mod Prelude
pub mod Bits
pub mod Hart
pub mod Mem
pub mod Isa
pub mod Block
pub mod Decode
pub mod Dev
pub mod Tests
