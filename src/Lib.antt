-- ===== src/Lib.antt =====
-- The core dumper of OpenCoreSDK (opencore/src/main/cpp/opencore), and its Java class Coredump
-- (opencore/src/main/java/penguin/opencore/sdk/Coredump.java).
--
-- The program writes an ELF core file of its own process. Opencore::Dump (opencore.cpp) sets the
-- object up, makes the file's name and forks; the child runs OpencoreImpl::DoCoredump (lp64 and
-- lp32 opencore.cpp), which stops the threads, reads /proc into tables, and writes the headers, the
-- notes and the memory; the class of the processor (arm64, arm, x86_64, x86, riscv64) fills the
-- registers and writes the notes of the threads. Enable and Disable install the signal handlers
-- that start it, and opencore_jni.cpp makes all of it native methods of the Java class Coredump.
-- That class runs the dumps on a thread of its own, and its listener on another.
--
-- Which file models what:
-- + Rounding: RoundDown and RoundUp (opencore.h), with the mask written out at a word size.
-- + Elf, Elf/Encode: the ELF types and their bytes; `ElfClass` is 32 or 64 bits, and `wrap`, `int`
--   and `sign_extend` are the stores to words of that size.
-- + Kernel: what is asked of the system, a record that the operations take: /proc, ptrace, pread64.
-- + Stream: the `FILE*`, as contents, position, and a script of what the disk answers.
-- + Opencore and its children: the base class. Filter is IsFilterSegment, Maps is ParseMaps,
--   Threads is StopTheWorld, StopTheThread and Continue, Handlers is Enable, Disable, IsEnabled and
--   IgnoreHandler, DumpName is what Dump sets and names.
-- + Process and its children: the static functions on the one object, in Process itself; Child is
--   Coredump after the fork, a step relation that SIGALRM and TimeoutHandle take part in; Crash is
--   the forms of Dump and HandleSignal in the parent, with the calls that they make as a list of
--   events.
-- + Jni and its children: opencore_jni.cpp. Methods has the native methods, nativeInit and the
--   injected library, Jni itself the callback into Java, Table the registered table.
-- + Sdk and its children: the class Coredump. Protocol has doCoredump, the two handlers and the
--   callback as a step relation of three threads, CrashHandler the class JavaCrashHandler, Members
--   init, toString and the methods that hand on to the native ones, Strings the printing of flags
--   and filters.
-- + Lp and its children: OpencoreImpl of lp64 and lp32, which are one text over two sets of types.
--   Prepare fills the tables, FilterFile is NeedFilterFile, Write has the writers up to the notes,
--   Load is WriteCoreLoadSegment, Dump is SpecialCoreFilter, DoCoredump and Finish.
-- + Cpu and its children: the classes of the processors, over what they share word for word.
-- + Prelude and its children: lists, tests and binary digits on the native numbers.
-- + Elf/Decode, Elf/NoteList and Lp/Layout/Peek: a reader of core files, written from the ELF
--   format and not from the program, which the theorems on Lp/Layout/Table, NotesRead and Peek read
--   back with.
-- + Lp/Layout and its children, Lp/Load/Healthy, Place, Memory, Padding, FullDisk, Failures and
--   Shifted, Lp/FilterFile/Writable, Lp/Dump/Filtered and Minidump, Process/Attached, Ends, Ignored
--   and Whole, Sdk/Protocol/Turns, Process/Crash/Calls, Restored and Raised, Jni/Settings, Callback
--   and Inject, Cpu/Threads and Announced, Opencore/Filter/Rules, and the files called Laws, Notes,
--   NoteList, Sizes and Frame hold proofs.
-- + Examples and its children: the theorems applied to small inputs.
--
-- Names follow the source: `do_coredump` is DoCoredump, a member keeps its name, and an operation
-- takes the object and returns it changed. Where an operation returns an `Option`, `none` is a
-- fault (a read behind a mapped file); in Sdk/Protocol it is a step that the thread cannot take. A
-- loop is structural recursion on the table it runs over, or on its count, so no fuel is needed;
-- `digits` has fuel for 20 digits, which a 64-bit number does not exceed.
--
-- The laws of a processor's class that the layout needs are the record `NotesLaws`
-- (Lp/Layout/File), and Cpu/Arm64/Notes, Arm, X86_64, X86 and Riscv64 fill it. WriteCorePrStatus of
-- riscv64 runs to a `prnum` that nothing declares: its value is a parameter, and the laws of that
-- class take it to be the number of entries of the table. `IsReady` states how the tables agree
-- before the first write; `IsUnused` and `IsCountable` are what the object and the sizes must
-- satisfy for it.
--
-- In the step relation of Sdk/Protocol a read and write of `mCondition` is one step, a message is
-- known by the number of its call, the listener is set once before, and no exception leaves it.
-- Only one thread at a time is in doCoredump, which is synchronized; dumps that signals start are
-- not followed. nativeCoredump, whose child the alarm ends, is taken to come to its callback or its
-- end.
--
-- In the step relation of the child the calls of DoCoredump that fill the tables are one step, and
-- the writes another; PTRACE_ATTACH and the entry in `threads` are one each. SIGALRM comes between
-- two steps, so what a file has that it cuts short is not followed. `Child.tracees` is the kernel's
-- side, the threads that are attached. A run of the relation may stop anywhere, where a call
-- blocks; `exits-do_coredump` gives the run that comes to the end.
--
-- What the Java machine answers is the record `Machine` (Jni), what `prctl`, `sigaction` and the
-- ids are the record `System` (Process/Crash).
--
-- Not modelled: eajni, a copy of another project's helpers, with JNI_OnLoad, which only calls it;
-- the example application; logging. The libraries' `sscanf` and `readdir` are parameters: the
-- kernel gives the lines and names that they deliver. No signal but SIGALRM interrupts an
-- operation, the two mutexes make Enable, Disable and HandleSignal one step each, and a mapping is
-- unmapped by no one while it is dumped.
pub mod Prelude
pub mod Rounding
pub mod Elf
pub mod Stream
pub mod Kernel
pub mod Opencore
pub mod Lp
pub mod Process
pub mod Jni
pub mod Sdk
pub mod Cpu
pub mod Examples
