-- ===== src/Lib.antt =====
-- Programs of a course on system programming: a command interpreter, an in-memory file system, and a
-- sorter of files.
--
-- The repository holds the homeworks of the course, each a program of its own in a folder 1 to 4, and
-- the examples of its lectures. The programs share no code and do not interact, but for the growing
-- array of 1/main.c and 2/shell.c. Modelled are 2/shell.c (Shell), 3/userfs.c with 3/userfs.h (Userfs),
-- 1/main.c (Sorter), 1/coro_jmp.h (CoroJmp), and of the lectures' examples lecture_examples/4_signals/12_libcoro.c (Libcoro),
-- lecture_examples/6_threads/12_cthread_detach.c (Cthread), lecture_examples/6_threads/8_futex.c and
-- lecture_examples/6_threads/14_condvar.c (Locks), lecture_examples/9_aio/4_server_select.c and
-- lecture_examples/9_aio/5_server_poll.c (Server), and parts of lecture_examples/7_ipc/3_mem_sort.c
-- (MemSort).
--
-- Base holds what several of them use: Base/Tests the Boolean tests, Base/Lists lists over the native numbers,
-- Base/Int the results of calls that return -1, and Base/Buffer the array of 2/shell.c (`struct buffer`,
-- `create_buffer`, `insert_buffer`, `double_buffer`).
--
-- Shell, in the order in which 2/shell.c handles its input:
--   Shell/Token      `struct list`: `insert_list`, `strip_comment`, `check_block`, `create_argv`
--   Shell/Lexer      the loop of `main` over the bytes of its input, with the word in the making and
--                    the flags is_quote_d, is_quote_s, is_escape and is_prev_spec as its state
--   Shell/Logic      `split_logic` and `execute_logic`: pipelines joined by && and ||
--   Shell/Pipeline   `split_pipeline` and `execute_pipeline`: pipes, children and their exit codes
--   Shell/Redirect   `open_files`: < > and >>
--   Shell/Exec       `execute_cd`, `execute` and `main` as a whole; Plain follows plain words through all of them
-- `main` reads (Lexer), hands each line to `execute` (Exec), whose child runs `execute_logic` (Logic),
-- which runs each pipeline by `execute_pipeline` (Pipeline), whose children call `open_files` (Redirect)
-- and `create_argv` (Token).
--
-- Userfs, in layers:
--   Userfs/State     blocks, files, descriptors, the global variables, `increase_file`, `unlink_file`
--   Userfs/Table     the array of descriptors: `insert_fd`, `delete_fd`, `ufs_get_fd`
--   Userfs/Transfer  the loops of `ufs_write` and `ufs_read`, on a descriptor and its file
--   Userfs/Calls     `ufs_open`, `ufs_write`, `ufs_read`, `ufs_close`, `ufs_delete`, and Calls/Resize
--                    `ufs_resize`
--   Userfs/Invariant what the calls keep true of the whole state; Sessions are lists of calls
--
-- Sorter:
--   Sorter/Code      what a coroutine has still to run, with the points where it calls `swap` or `rand`
--   Sorter/Order     numbers in order, and the cells of an array
--   Sorter/Quick     `part` and `quick_sort`
--   Sorter/File      `sort_file`, the code of a coroutine
--   Sorter/Schedule  `swap` and `terminate`: which coroutine runs next, and the times it keeps
--   Sorter/Machine   the coroutines of `main`, one of which runs at a time
--   Sorter/Merge     `merge_files`: the numbers of the sorted buffers, printed in one sequence
--   Sorter/Program   `main`
-- `main` (Program) starts a machine (Machine) of one `sort_file` (File) for each file. A step runs one of
-- them up to where it calls `swap` or ends by `terminate`, which choose the next one (Schedule). Once
-- `main` runs again, it hands the buffers to `merge_files` (Merge).
--
-- CoroJmp:
--   CoroJmp          the macros of 1/coro_jmp.h, with the points that they jump to
--   CoroJmp/Stack    the points to return to, as a stack
--   CoroJmp/Turns    the coroutine whose turn it is
--   CoroJmp/Views    what the user of the macros thinks of
--
-- Libcoro:
--   Libcoro/State    `struct coro`, the global variables, `coro_list_add` and `coro_list_delete`
--   Libcoro/Calls    `coro_yield`, the end of `coro_body`, `coro_sched_wait` and the small functions
--   Libcoro/Creation `coro_new`, the start of `coro_body`, and what the kernel keeps of signals
-- A run of Calls goes from one coroutine of the list (State) to the next one until the scheduler is back.
-- What a context holds is the rest of the coroutine's function: how often it still gives way and what it
-- returns then.
--
-- MemSort:
--   MemSort          `write_to_shared_mem` and `read_from_shared_mem`, a call of each, as steps that may follow
--                    each other in any order
--   MemSort/Reading  the loop of `sorter` over the numbers of its file
--
-- Cthread:
--   Cthread          `cthread_create`, `cthread_runner`, `cthread_join`, `cthread_detach` and `cthread_destroy`
--                    as steps that may follow each other in any order
--   Cthread/Polling  the last loop of `main`
--
-- Locks:
--   Locks/Sums       sums over the threads of a program
--   Locks/Futex      `futex_lock`, `futex_unlock` and `thread_f` of 8_futex.c, as steps of any number of
--                    threads; the kernel's futex by what its manual says
--   Locks/Condvar    `condvar_signal` and `condvar_wait` of 14_condvar.c, as steps of `main` and any number
--                    of waiters
--
-- Server:
--   Server           `interact`, `fill_fdset`, `remove_client` and the loop of `main` of 4_server_select.c, and
--                    a round of `main` of 5_server_poll.c, on what the kernel answers
--
-- Under each of these modules stand the modules with its proofs, named for what they prove; the files
-- called Tests hold runs and the theorems at concrete inputs.
--
-- Memory. A list of tokens and the chain of a file's blocks are lists. In Userfs an object has a number
-- for its address, handed out by `brk` and never used twice; a pointer is such a number, a freed
-- object is not there any more, and following a pointer to it, or a NULL pointer, is the result `fault`.
-- A `memcpy` over the end of a buffer is a fault too. `malloc` and `realloc` do not fail. Integers are
-- natural numbers. A file of Userfs has at most 2^30 bytes, but the wrap of `curr_size + size` for a size
-- near 2^64 is not modelled. The `int` that a growing array of numbers doubles, in 1/main.c and
-- 3_mem_sort.c, overflows with 2^30 elements, which is a fault of `sort_file` and of `sorter`; in the shell
-- the length of a word and of a command line is not bounded, so what is said of it holds of words with
-- fewer than 2^30 bytes. A word of the shell is a string of C: what stands in front of its first 0. The counter of 8_futex.c and the numbers that the
-- servers send wrap at 2^32.
--
-- The kernel and the C library are parameters: the descriptors that `pipe` returns, the process ids of
-- `fork`, the processes that `wait` reports and their order, `atoi`, which calls of `fork` succeed, and
-- the values of `clock`, which do not go back, and of `rand`; the answers of `select`, `poll`, `accept`,
-- `read` and `write` to the servers; which thread a futex wakes; how many calls of `quick_sort` fit inside
-- one another on a coroutine's stack, and where the C library leads a coroutine that returns and whose
-- `uc_link` was set after `makecontext`, as 1/main.c does. `swapcontext` does not fail. In a pipeline of the
-- shell `pipe` and `fork` do not fail, and `pipe` does not return 0 or 1, which the shell has open. An
-- `fd_set` has 1024 bits, and a descriptor behind them is an error of the server with `select`.
--
-- Fuel. `execute_logic` takes as many rounds as there are tokens and one more, its inner loop two more
-- than there are tokens left; `execute_pipeline` one more than there are tokens. `ufs_write` and
-- `ufs_read` take the fuel as an argument, since one of them may not end: more fuel than there are bytes
-- is enough where the results below say that they end. `merge_files` takes as many rounds as there are
-- numbers and one more, the loop of `part` as many as its range has cells and one more; the fuel of
-- `quick_sort` is the room on its stack, which is enough where there are fewer numbers. Running out of fuel is a result of its own,
-- which the results below exclude. `coro_sched_wait` takes its fuel as an argument; how much is enough is
-- said with its result. The loop of the servers over their clients takes as many rounds as there are clients
-- and one more.
--
-- Not modelled: the messages of the shell and the reaping of its background children, which prints
-- only; the release of memory in the shell and in 1/main.c, the statistics of 1/main.c and the text of its
-- files, which is a list of numbers; the local data of coroutines in 1/coro_jmp.h; in 3_mem_sort.c `main`,
-- `qsort` and the bytes of an `int`; how the servers open their listening socket; coroutines of 12_libcoro.c that create coroutines themselves; the
-- order in which a processor makes writes to shared memory visible, which is taken to be that of the
-- program; 4/thread_pool.c, whose functions are stubs; the other examples of the lectures; tests and scripts.
pub mod Base
pub mod Shell
pub mod Userfs
pub mod Sorter
pub mod Libcoro
pub mod MemSort
pub mod Cthread
pub mod CoroJmp
pub mod Locks
pub mod Server
