-- ===== src/Lib.antt =====
-- The oneplog logging library: a producer captures a log call's arguments in a snapshot, pushes the
-- entry into a ring buffer without a lock, and a consumer takes it out, formats it and hands it to
-- the sinks.
--
-- Parts and files
--   include/oneplog/internal/heap_memory.hpp, the ring buffer of entries: RingBuffer/.
--     Slot is SlotStatus; State is RingBufferHeader with the buffer and the slots, the producer's
--     local cache, SpinWait and the notification; Acquire is AcquireSlot with both loops and
--     DropOldestEntry; Push is CommitSlot, TryPush and TryPushWFC; Pop is TryPop, TryPopForWFC,
--     TryPopBatch, the operations on completion and the queries; Wait is WaitForData and the
--     accessors. Inv is the invariant of a ring
--     between calls and its contents, Queue the bounded queue that a client sees. PushSmall,
--     PushPolicy and PushWait are about the loop that reads the tail, ShadowTail and ShadowPush
--     about the one that reads the shadow tail, PopRefines about the consumer, WaitKeeps and
--     WakeUp about its sleep, Wfc about waiting for completion.
--   include/oneplog/internal/binary_snapshot.hpp, the arguments of a log call: Snapshot/.
--     Bytes is memory and memcpy; Capture the capture methods; Format is FormatArg, Format and
--     FormatAll; Convert is ConvertPointersToData, SerializeTo, Deserialize and operator==. Layout
--     says which bytes stand for an argument; the other files are about one operation each.
--   include/oneplog/common.hpp, levels, modes and error codes: Common/.
--   include/oneplog/internal/fixed_name.hpp, direct_mapping_table.hpp, array_mapping_table.hpp and
--     platform_lookup_table.hpp, the names of threads: NameTable/.
--   include/oneplog/internal/memory_pool.hpp, the pool of blocks: MemoryPool/.
--     Pool is MemoryPool, the two loops on the free list as single accesses and as undisturbed calls;
--     System is threads that use one pool and pass blocks on. Chain and Stack are about the free list,
--     Invariant, Moves, HandOver and Ownership about pools with one allocating thread, Aba about two.
--   include/oneplog/internal/shared_memory.hpp, the segment of several processes: SharedMemory/.
--     Layout is AlignUp, CalculateRequiredSize and the offsets, Regions the parts they give;
--     Names is NameIdMapping and ProcessThreadNameTable, NamesSpec, NameEntry, NamesHeld,
--     NamesRefine and NamesTwice what the table promises; Access is what SharedMemory passes on;
--     Segment is SharedMemoryMetadata with Create, Connect and the destructors, Release what they
--     leave held, Config is SharedLoggerConfig.
--   include/oneplog/logger.hpp with internal/log_entry.hpp, internal/logger_config.hpp and
--     internal/static_formats.hpp, the logger over its ring: Logger/. Entry is the entries, Sinks
--     the sinks, MessageOnlyFormat and the bindings, Log is LogImplSync, LogImplAsync and
--     LogImplWFC, Levels the calls by level, Worker is ProcessEntry and DrainRemainingEntries,
--     Loop is WorkerLoop; System is the logger at work, Drain, AsyncSync and LoopHolds what it
--     writes, Completion the call that waits. Lifecycle is the constructors, the destructor, the
--     moves and the start and stop of the threads, Served what they leave; Flush is Flush in
--     asynchronous mode, FlushHolds what it has written.
--   include/oneplog/internal/pipeline_thread.hpp, from a process' ring to the shared one: Pipeline/.
--     Forward is ProcessEntry and the loop at the end of ThreadFunc, Message what is printed of an
--     entry, Drain what the loop moves; Thread is ThreadFunc, Trace what others do meanwhile, Reach,
--     Available and ThreadHolds how far it comes.
--   include/oneplog/logger.hpp once more, several processes with one ring in a segment: Mproc/.
--     Worker is MProcWorkerLoop, DrainSharedRingBuffer and what StopMProcWorker does to the rings and
--     the sinks, Flush is Flush with shared memory; Pending, Join and Stop are about one process that
--     stops, Messages and Delivery about two, DueRound, FlushRound and FlushHolds about Flush.
--   include/oneplog/name_manager.hpp and internal/optimized_name_manager.hpp, the names of the process
--     and its threads: NameManager/. Global is SetProcessName, SetModuleName, ThreadModuleTable,
--     NameManager and ThreadWithModuleName, Optimized is OptimizedNameManager; ThreadIds is the two ids
--     of a thread, of logger.hpp and of name_manager.hpp; Lookup and Logged are about what another
--     thread looks up, Twins and TwinRuns compare the two, Plain is about names.
--   include/oneplog/internal/static_formats.hpp, the lines and the files: Formats/ and Sinks/.
--     Formats.Text is FormatFixedWidthName and GetLevelColor, Formats.Static is SimpleFormat,
--     FullFormat and FileFormat; Width, Clean and Uncut are about their buffers, Shown about names.
--     Sinks.Static is FileSinkType, Sinks.Stream is include/oneplog/sinks/sink.hpp; Files is the part
--     of <cstdio> they use, Backups what renaming leaves, Pack, Sizes and Family the files that a sink
--     is meant to leave, StaticPacks, StaticFiles, StreamPacks and Agree what the two sinks do.
--   A caller captures its arguments (Snapshot) in an entry and pushes it (RingBuffer, Logger.Log); the
--   worker takes it out and writes it (Logger.Worker), or the pipeline forwards it to the ring in the
--   segment (Pipeline), where another process' worker does. Prelude has what all parts share.
--
-- Conventions
--   `size_t` arithmetic on head and tail wraps around at 2 ^ 64. A template flag (EnableWFC,
--   EnableShadowTail, the capacity of a table) is an argument. A pointer test on m_header, m_buffer
--   and m_slotStatus is the field `live`. The thread-local cache is passed in and returned.
--   A loop of AcquireSlot runs along a schedule, a list with one element per round that says what the
--   other threads do to the shared state before the next round; a round itself is undisturbed, and
--   its weak compare-exchange does not fail for no reason. If
--   the schedule ends while the loop runs, the result is `none`: it stands for a call that is still
--   running, and no property takes `none` for a returned call. The properties that promise a result
--   name the rounds that are enough. The loop over a snapshot's arguments has fuel, the offset, which
--   every round increases by one at least.
--   What others do while WaitForData runs is given at each of its places: in a round of the polling,
--   between the last test and the store of WaitingNotify, between that store and the test behind it,
--   and in DoWait. The commit of a slot and the notification behind it may come at different places;
--   their effects are seen in the order in which they happen, which is more than the release and
--   acquire accesses of heap_memory.hpp promise by themselves.
--   Bytes are numbers below 256, a number of an argument is its bit pattern, and what the C++ library
--   prints for it is a parameter. A process's memory is a function of the address.
--   The pool is taken in a sequentially consistent order of its atomic accesses; a weak exchange may
--   fail for no reason. The walk of AvailableCount has as fuel the number of blocks, the drains the
--   number of rounds or a list with an element per round; the properties say how much is enough.
--   The cache line has 64 bytes, and the sizes of the structures in a segment are parameters; what
--   shm_open, ftruncate, fstat and mmap answer is a parameter too, and the calls are a list of events. The
--   logger is that of release mode with UseFmt off; a format is what its binding asks of it.
--   When a process stops, its pipeline ends before its worker goes on, and no other thread acts on
--   its rings; what is written is a value of type World, one for each process.
--   Files are a function of their names; whether a file opens, and whether a stream takes a text, is an
--   argument of the call, and no one else touches the files. A text that is written is in its file at
--   once. std::to_string is written out; localtime_r is a parameter. A thread is known by its id,
--   which in the name managers is the one of gettid() and in an entry, on Linux, that of pthread_self().
--
-- Not modelled
--   Interleavings inside one round, memory orders, moving a ring, the creation of the event
--   descriptor (its poll and read are a parameter), other platforms than Linux. Of the logger:
--   the entry of debug mode in the ring and the paths through fmt. The thread of a Sink, which
--   does nothing. Copies of other projects (fmt, spdlog, rapidcheck, googletest), benchmarks,
--   examples and tests.
pub mod Prelude
pub mod Common
pub mod NameTable
pub mod RingBuffer
pub mod Snapshot
pub mod MemoryPool
pub mod SharedMemory
pub mod Logger
pub mod Pipeline
pub mod Mproc
pub mod Sinks
pub mod NameManager
pub mod Formats
