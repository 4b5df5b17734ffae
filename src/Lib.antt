-- ===== src/Lib.antt =====
-- A kernel for the gumstix board: fixed-priority tasks with mutexes, periodic devices and
-- a few system calls, written in C and ARM assembly. This library models its C code and proves the
-- properties listed at the end.
--
-- The program's parts, their sources and their models:
--   RunQueue     kernel/sched/run_queue.c: the array of TCB pointers and its two-level bitmap, with
--                runqueue_init, runqueue_add, runqueue_remove and highest_prio.
--   Kernel       kernel/include/task.h, lock.h, config.h and device.h: the structs and limits, and one
--                record of all global variables that the other parts read and write.
--   Dispatch     kernel/sched/ctx_switch.c, and the switches of kernel/sched/ctx_switch_asm.S as copies
--                between the saved contexts and the registers.
--   SleepQueue   the loop that appends the running task to a list linked through its TCBs, which
--                kernel/lock/mutex.c and kernel/device.c both contain.
--   Mutex        kernel/lock/mutex.c: mutex_init and the system calls that create, lock and unlock.
--   Device       kernel/device.c: dev_init, dev_wait and dev_update.
--   Irq          kernel/irq.c: C_IRQ_Handler, and a number of interrupts in a row.
--   Sched        kernel/sched/sched.c: sched_init and allocate_tasks, which start the tasks.
--   Proc         kernel/syscall/proc.c: task_exchange, task_create_syscall, event_wait_syscall.
--   Io           kernel/syscall/io.c: read_syscall and write_syscall.
--   Time         kernel/syscall/time.c: time_syscall and sleep_syscall.
--   Math         kernel/math.c (sum_region, and ilog2 with and without NDEBUG) and kernel/memcheck.c
--                (valid_addr).
--   Swi          kernel/syscall/sys.c: getSWI, from a call's number and words to its handler.
--   Hijack       kernel/hijack.c: how the boot loader's exception handlers are overwritten.
--   Syscall      how a system call ends, and the codes of kernel/include/bits/errno.h.
--   Waiting      the specification that run queue, mutexes and devices share: where each task is.
--   WellFormed   the invariant of the whole kernel state, and what each operation does to it.
--   System       the kernel as a transition system: the calls, their continuations and the interrupt.
--                Claims says what the mutex calls return, Created that mutexes stay created.
--   Programs     the test programs of tasks that check themselves. Machine runs any set of tasks
--                on the kernel, Exclusive is about their critical sections, Balanced about tasks
--                that pair their locks and unlocks, MutexChaser is
--                tasks/mutex_chaser/mutex_chaser.c, Dagger is tasks/dagger/dagger.c, SysErr is
--                tasks/sys_err/sys_err.c, and Stress is tasks/stress/stress.c (main only). Rot13
--                is tasks/rot13/rot13.c on the console calls, and Cyclone is
--                tasks/cyclone/cyclone.c, whose task starts its task set anew.
--   Libc         include/ctype.h in kernel and tasks/libc, tasks/libc/string/memmove.c and
--                tasks/libc/stdlib/atoi.c.
--   Prelude      names of the standard library, lists, bits and updates.
--   Tests        concrete states, runs on them, and instances of the theorems.
--
-- State and operations. A pointer to a TCB is its index in `system_tcb`, and an array is a function
-- of the index, with the C bounds written out where the code loops over it or tests an index; a
-- negative index is a fault, and one behind the end of an array is none. An operation takes the
-- kernel and returns the new one. A handler that switches to another task ends there with the state
-- at the moment of the switch; what it does when its task runs again is a function of its own
-- (mutex_lock_resume), and the transition system remembers which task is inside which call.
-- Handlers run without interruption up to their switch. The C code does so for the mutexes, where
-- it disables interrupts; between enable_interrupts and dispatch_save of a blocked lock, in
-- event_wait_syscall and in the other calls, interruptions are not modelled.
--
-- A program of tasks/ is given by what each task does at a point of its code, and the shared memory.
-- Programs.Machine lets the running task make its next call or its next step, and the timer interrupt
-- between any two of them; a read and a write of a shared variable are two steps. A call reaches
-- the kernel through its stub in tasks/libc/swi, which stores the result in errno. sys_err has one task, so
-- its calls follow one another, with interrupts before each. What is printed is a list of the calls of
-- putchar, puts and printf; how printf formats is not part of the model. The main function of a program
-- runs before any interrupt.
--
-- Numbers are natural numbers, with `% 2 ^ w` where a C type of w bits wraps around. The bits of the run
-- queue are set and cleared by arithmetic on bytes.
--
-- Fuel. The walk along a sleep queue has fuel 64, one for each task, and the loop that wakes a
-- queue has 65. Running out of fuel is an outcome of its own, and for well-formed states it is
-- proved not to happen. ilog2 has fuel 32, which is proved to be enough. sleep_syscall waits for a
-- clock that interrupts advance; its fuel is the number of reads; in cyclone.c the reads before the
-- clock reaches the target are a hypothesis. rot13.c writes with fuel 11, which is proved to be
-- enough. All other loops recurse on the rounds left.
--
-- Parameters: the addresses of launch_task, idle, S_Handler and IRQ_Handler, the vector
-- table, the keys typed at the boot loader's console, the user's memory, and the clock
-- that sleep_syscall reads.
--
-- Not modelled: the assembly entry points, kernel/main.c, the set-up of the timer and its registers,
-- invalid_syscall, kernel/sched/ub_test.c, kernel/hexdump.c, kernel/assert.c, the functions
-- fun1 and fun2 of stress.c, the other programs under tasks, and the parts of the C library that are
-- copies of other projects' code.
pub mod Prelude
pub mod RunQueue
pub mod Kernel
pub mod Dispatch
pub mod SleepQueue
pub mod Syscall
pub mod Mutex
pub mod Waiting
pub mod Device
pub mod WellFormed
pub mod Irq
pub mod Sched
pub mod Proc
pub mod Math
pub mod Time
pub mod Io
pub mod Hijack
pub mod Swi
pub mod System
pub mod Programs
pub mod Libc
pub mod Tests
