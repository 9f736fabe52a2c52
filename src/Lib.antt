-- ===== src/Lib.antt =====
-- CyPhOS is an operating system for multi-core cyber-physical systems. A program is a set of
-- components (OSCs) whose functions, the triggers, run to completion: an event makes a task for
-- each trigger that is subscribed to it, a scheduling strategy queues the tasks, and each processor
-- in turn takes a task whose components no other processor uses, runs it on a stack of the pool and
-- gives task, components and stack back.
--
-- * Queue (common/Queue.cc, common/Queue.h, common/QueueElement.h): the intrusive doubly linked
--   queue, at the level of pointers. `Links` holds pNext and pPrevious of every element, since all
--   queues of a type share them; a command takes and returns it and fails at a null dereference.
--   `IsQueue m q xs` says that the queue holds the list `xs`. Children: Chain, Insert, Between,
--   Unlink, Remove, Search, Dequeue.
-- * EventQueue (eventhandling/EventQueue.cc, eventhandling/EventPriorityQueue.cc): the ready
--   queues. EventQueue.Model has the functions on lists; EventQueue.Enqueue and EventQueue.Locked
--   relate the two.
-- * Tasks (eventhandling/Trigger.h, EventTask.h, Event.h): the data.
-- * Locking (eventhandling/EventHandler.cc, tryTaskLock and unlockTask): which components are in
--   use. `try_task_lock` is the whole function, which never returns for a trigger without
--   component; the strategies use `attempt`, the rest of it, so they are those of a system in which
--   every ready task has a component.
-- * StackPool (eventhandling/StackPool.cc): stacks; StackPool.Held relates them to the processors
--   that hold them.
-- * Strategy (eventhandling/SchedulingStrategy.h and the four strategies): `SchedulingStrategy` is
--   the interface that the event handler takes as a parameter: the operations and two laws.
--   Strategy.Fifo, Strategy.SinglePriority, Strategy.MultiFifo and Strategy.MultiPriority fill it;
--   Strategy.Choice is about which task is taken. Their queues are the lists that EventQueue
--   relates to the pointers.
-- * EventHandler (eventhandling/EventHandler.cc): pools of tasks, new tasks, dispatching and the
--   end of a task. EventHandler.System has the steps of the processors, in any order.
-- * Timer (driver/GenericTimer.cc, eventhandling/TimerEvent.h): the software timer. Timer.Schedule
--   says when the events of a list are due; Timer.Oneshot and Timer.Tick are about setting,
--   cancelling and ticks.
-- * Number (common/OutputStream.cc and driver/ConsoleBuffer.cc, operator <<): the loops that print
--   a number, which both classes have. Children: Power, Grow, RoundTrip.
-- * Ring (driver/ConsoleBuffer.cc, arch/armv7/imx6/driver/CanBuffer.h): the search for a free entry
--   of a ring, which the console and the CAN messages share.
-- * Output (common/OutputStream.cc): the output stream with its buffer; Output.Text is about the
--   text that it stands for.
-- * Console (driver/ConsoleBuffer.cc): the ring of lines. Children: Reserve, Lines.
-- * Spinlock (sync/Spinlock.h): the ticket lock as steps of several processors; Spinlock.Line has
--   the processors in the order of their tickets, Spinlock.Serves who is first.
-- * Acpi (arch/x86/driver/ACPI.cc, SMPManager.cc): the firmware's table of processors and IOAPICs;
--   Acpi.Tables has the search for a table, Acpi.Walk is about the walk through the MADT,
--   Acpi.Processors about the processors that it registers.
-- * Barrier (sync/barrier.h): the barrier as steps of its threads, with counts of the calls that
--   each has begun and ended; Phase has the two phases of a round, Steps that the steps keep them,
--   Waits what follows.
-- * Random (common/RandomGenerator.cc): the random numbers; Xor has facts on the exclusive or,
--   Nonzero that the state is never 0.
-- * Cache (cachemanagement/GenericCacheManagement.cc): which way of the cache holds which part of a
--   component. Children: Choice and Ways (getLRUWay), Preload (with Round and Loop), Evict.
--   Addresses of parts wrap at 2^64, as on a 64-bit port.
-- * Colouring (cachemanagement/CacheColoring.cc): where the pages of a part go in physical memory;
--   Colouring.Pages is about the two pages per colour of both ports.
-- * Paging (driver/GenericMMU.cc, arch/x86/driver/X86Pagetable.cc and X86MMU.cc,
--   arch/armv7/driver/ARMv7PageTable.cc and ARMMMU.cc): the page tables as words of memory.
--   Paging.X86 and Paging.Arm have the two ports, with children for the walk, the entries, mapping
--   and ranges; Paging.Mmu is the interface that both fill and that Paging.Move, moving a page,
--   takes as a parameter. Paging.Recolor has colouring and the MMU together.
-- * Can (arch/armv7/imx6/driver/MCP2515SPI.cc): the driver of the CAN controller. Can.Controller
--   says what it relies on of the controller, whose registers are a parameter: reads and writes
--   outside the mirrored CANSTAT and CANCTRL, which registers are writable when, and a status that
--   may change while it is polled; Can.Registers, Can.Load and Can.Rates are about registers,
--   transmission and bit timing, Can.Modes about modes and filters, Can.Receive about events and
--   messages that arrive (children: Bytes, Deliver, Pool), Can.Start about starting.
-- * CanBuffer (arch/armv7/imx6/driver/CanBuffer.h): the messages between the CAN driver and the
--   components; Messages is about entering and reading, Removal about removing them.
-- Examples has every theorem below at a concrete input.
--
-- Pointers and machine words are natural numbers; sizes, counters and timestamps wrap at 2^32 or
-- 2^64 as declared. A spinlock makes the code that it guards one step, as Spinlock justifies. Loops
-- over a queue take fuel, and more fuel than elements is enough, since each round moves to the next
-- element. Printing a number takes 65 rounds, enough for 64 bits; the search for a line of the
-- console takes one round for each of its 20 lines, and for a CAN message one for each of the 10
-- lines; preloading takes a round for each part, and more fuel than bytes is enough. Loops over
-- pages take more fuel than the address of the end, the walk through the MADT more than entries;
-- `setMode` gives up after 10001 rounds. The endless loops that the code falls into on an error are
-- the value `none`.
--
-- The number of processors is a parameter `n`, the address of the stacks is a parameter `base`. Not
-- modelled: profiling, debug output and the CPU state for diagnosis; durations and reports of the
-- cache management; flushing the TLB; the other drivers and the boot code, which mostly write
-- hardware registers.
pub mod Acpi
pub mod Barrier
pub mod Base
pub mod Cache
pub mod Can
pub mod CanBuffer
pub mod Colouring
pub mod Console
pub mod EventHandler
pub mod EventQueue
pub mod Examples
pub mod Locking
pub mod Number
pub mod Output
pub mod Paging
pub mod Queue
pub mod Random
pub mod Ring
pub mod Spinlock
pub mod StackPool
pub mod Strategy
pub mod Tasks
pub mod Timer
