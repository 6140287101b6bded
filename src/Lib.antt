-- ===== src/Lib.antt =====
-- z80e, an emulator library of the Z80 and of the TI calculators built around it.
--
-- Parts. The processor (libz80e/src/core) reaches the outside through function pointers only: bytes
-- of memory, ports and hooks. The memory management unit (libz80e/src/ti/memory.c) stands behind the
-- bytes; the hardware (libz80e/src/ti/asic.c and libz80e/src/ti/hardware) stands behind the ports:
-- the mapping ports choose the pages of the unit's banks, and the interrupt controller sets the pin
-- that the processor looks at before each instruction. The hooks (libz80e/src/debugger/hooks.c) see
-- each access and may change its value.
--
-- Common holds shared names: tests, bits, lists, C's widths, and the dense `switch`.
--
-- Core.Flags and Core.Registers model libz80e/include/z80e/core/registers.h and
-- libz80e/src/core/registers.c: the flag macros, the register file as its bytes, the unions as
-- functions of the bytes. Core.Cpu and the modules below it model libz80e/src/core/cpu.c: Cpu has
-- `z80cpu_t`, `struct ExecutionContext` and the accesses (`cpu_read_byte` to `read_d`); Operands has
-- `HorIHr` to `read_cc`; Alu has `daa` and `execute_alu`; Rotate has `execute_rot`; Block has
-- `execute_bli`; Interrupt has `execute_im` and `handle_interrupt`; Instructions.Cb, Ed, X0 and X3
-- have the branches of `cpu_execute` by prefix and by the field x of the opcode; Execute has its
-- loop, one round of which is `step`. Core.Cpu.Invariant has what each of these keeps.
--
-- Code that changes the context is a function `Exec M A` from a context to a value and a context,
-- written with do blocks. `M` is the state of everything outside the processor. A `Board M` gives the
-- function pointers, the port hooks and the pin `interrupt`, which the processor only reads; its
-- results are cut to the width of a byte where the C code does so. Where C leaves the order of two
-- reads open, they are taken from left to right. The log is left out.
--
-- Core.Cpu.Named has the accesses to registers by name. Core.Cpu.Invariant.IsKept is the interface to
-- the outside: a property of `M` that every access of the processor keeps. The hardware fills it in
-- Ti.Asic.Fits.
--
-- Hooks models libz80e/src/debugger/hooks.c: a table of callbacks is a list whose length is the
-- capacity, and the callbacks share a state of their own. Hooks.Slots has the search for a free entry
-- with its growth by ten, which the table of timers shares. A failed `realloc` is left out.
--
-- Ti.Memory models libz80e/src/ti/memory.c: the unit, the chip's handlers, and in Flash the table
-- `patterns` and `ti_read_byte`, `ti_write_byte`, `mmu_force_write`. An access outside an array is
-- `none`. The files of libz80e/src/ti/hardware are modelled by Ti.Interrupts (interrupts.c),
-- Ti.Mapping (memorymapping.c), Ti.Lcd (t6a04.c), Ti.Keyboard (keyboard.c), Ti.Link (link.c) and
-- Ti.Timers (the timers of interrupts.c, the table of libz80e/src/ti/asic.c, and timers.c).
--
-- Ti.Asic models libz80e/src/ti/asic.c with status.c, speed.c and flash.c: `Asic` is the state of all
-- devices; Ports has the device on each port after `plug_devices` and `asic_mirror_ports`; Machine has
-- `asic_board`, the `Board` that these devices make, and `asic_init`. In C the devices share the
-- processor's pin and the hooks by pointers; here the pin stands with the interrupt controller and the
-- hooks with the memory unit, and each device is given both. After an access outside an array the
-- program of C may do anything. The model goes on with a mark, `stuck`, which nothing takes away,
-- and the results on the bounds of the hardware are about the runs that end without it. What the
-- code does with C doubles, which are frequencies of timers, is the parameter `Doubles`.
--
-- Numbers are natural numbers. A store to an 8-bit or 16-bit object is cut by `% 2 ^ 8` or
-- `% 2 ^ 16`; an `int` that may be negative is the 32-bit pattern of its value; `int8_t d` is its
-- 16-bit pattern, since it is only added to 16-bit registers.
--
-- `cpu_execute` runs on fuel, one unit for a round. It keeps the cycles left and the cycles
-- overdrawn apart, as natural numbers, in place of one `int`; the first reaches zero after at most as
-- many rounds as there are cycles, since a round uses up at least one.
--
-- Debugger models the search of libz80e/src/debugger/debugger.c for a command by a prefix of its name;
-- Debugger.Commandline has the split of a command line into words and `debugger_exec` up to the call
-- of the command. Characters are their codes. A read behind the end of the line, and a write behind
-- an array, is `none`; a turn of the loop over the words takes at least one character, so the
-- length of the line is fuel enough.
--
-- Debugger.Breakpoints has the names of registers and the breakpoints of
-- libz80e/src/debugger/commands/on.c.
--
-- Disassembler models libz80e/src/disassembler/disassemble.c: a `Line` is `memory->current`, the
-- prefix of `struct context` and the calls of the write function so far, each with its format and its
-- arguments; code that runs on it is a `Print A`, written with do blocks. Disassembler has the
-- operands (`parse_n` to `parse_bli`), SourceMap the source maps and the symbols, Prefixed and Plain the
-- branches of `parse_instruction` by prefix and opcode, Instruction the prefixes and the whole. The
-- reader of bytes, the loaded objects (records with the fields that the code reads) and the list of
-- system calls are parameters. The fuel is the depth of nested instructions; one is enough unless
-- KnightOS is set.
--
-- Runloop models libz80e/src/runloop/runloop.c: Runloop has the ticks of a timer in a share of
-- cycles and the setup of the timers, Runloop.Slice `runloop_tick_cycles`, on the whole hardware
-- of Ti.Asic. `cycles_until_next_tick`, which may be negative, is a difference of two numbers, as
-- in `cpu_execute`. Runloop.Sockets has the update of the sockets; what the system's calls on
-- them give in each turn of the loop, and `qsort`, are parameters. The entries that the array of
-- ticks has behind the new ones are a parameter too, since the loop reads the first of them.
-- `turns` is the fuel of the loop, one unit for a turn, and `fuel` that of each `cpu_execute` and
-- of each timer's ticks; Runloop.Returns says how many turns are enough.
--
-- Not modelled: the clock of the run loop, the calls on its sockets, the files that the
-- disassembler reads, the other commands of the debugger, which print, the log and the frontends;
-- in cpu.c `indHLorIr` and `indHLorIw`, and in t6a04.c `bw_lcd_advance_int_pointer`, which
-- nothing calls; and allocation.
pub mod Common
pub mod Core
pub mod Debugger
pub mod Disassembler
pub mod Hooks
pub mod Runloop
pub mod Ti
