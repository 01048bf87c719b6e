-- ===== src/Lib.antt =====
-- ooops: a library that is preloaded into the programs of a job and holds their metadata calls on
-- shared file systems (open, stat) to a rate, with a daemon that gathers the counters of all nodes.
--
-- The library (src/ooops.c) replaces open, stat, chdir and getcwd of the C library. A wrapper finds
-- the file system of its path (Check_FS_Server), runs the real function, stamps and counts the call
-- and naps if the last three calls were too close (post_lxstat, Update_open_Count). The limits come
-- from a page of shared memory that set_io_param may rewrite while the job runs. The wrappers are
-- put in place by src/hook.c, which patches the entries of the functions in memory. The daemon
-- (src/server.c) reads the counters of its node from shared memory and those of the other nodes
-- from their messages, whose ranks it looks up in a hash table of node names (src/dict.c).
--
-- What models what:
--   Prelude      shared names: native numbers, Boolean tests, arrays as lists, signed integers, C
--                strings as lists of bytes
--   Floats       what is used of `float` and `double`, as an interface with its laws
--   FileServer   src/ooops.c, Check_FS_Server, Update_CWD and the wrappers of chdir and getcwd
--                (FileServer/Scan, FileServer/Cwd: theorems)
--   State        src/ooops.c, the static variables and the shared page
--   Params       src/ooops.c, Publish_Parameters and Update_Parameters (Params/Share,
--                Params/Refresh), and in Params/Setup Init_Shared_Mutex for the page of parameters, as
--                steps of several processes (Params/Setup/Stores, Params/Setup/Phases, Params/Setup/Kept,
--                Params/Setup/Agree)
--   Config       src/ooops.c, Read_Config, and in Config/Defaults Read_Default_Param of
--                src/set_io_param.c and of src/server.c (Config/Nearest: the choice of a section,
--                Config/Sections: a whole file; Config/Tokens: words)
--   Frequency    src/ooops.c, Get_Freq (Frequency/Line)
--   SetParam     src/set_io_param.c, the arguments and what is written to the shared page
--                (SetParam/Settings, SetParam/Effect: what the processes take over)
--   Throttle     src/ooops.c, the pacing that post_lxstat and Update_open_Count share
--                (Throttle/Record: stamps and counters, Throttle/Nap: the nap)
--   Threads      src/ooops.c, the same calls of several threads, as steps on the shared memory
--                (Threads/Numbers: counters and places, Threads/Progress: the mutex)
--   Intercept    src/ooops.c, the wrappers of stat and open (Intercept/Gates, Intercept/Wrappers;
--                Intercept/Disabled: with the tool)
--                and of write (Intercept/Shell)
--   Startup      src/ooops.c, Get_Exe_Name_and_CmdLine and init; Startup/Script: the functions
--                Append_Job_End_Handler_Bash, _Tcsh and _Zsh (Startup/Wrap: theorems)
--   Layout       src/ooops.c, the pointers of Init_Shared_Mutex, and those of src/set_io_param.c and
--                src/server.c to the same objects (Layout/Fit: theorems)
--   Hook/Maps    src/hook.c, get_module_maps (Hook/Maps/Merge, Hook/Maps/Cover) and
--                get_position_of_next_line (Hook/Maps/NextLine)
--   Hook/Blocks  src/hook.c, find_usable_block, allocate_memory_block_for_patches,
--                determine_mem_block_size (Hook/Blocks/Reach)
--   Hook/Span    src/hook.c, the range of a module's functions (query_all_org_func_addr)
--   Hook/Symbols  src/hook.c, query_func_addr, and query_all_org_func_addr for one module, with the
--                duplicates that install_hook leaves out (Hook/Symbols/Resolve, Hook/Symbols/Patched)
--   Hook/Query   src/hook.c, query_all_org_func_addr for all modules (Hook/Query/Sound)
--   Hook/Registry  src/hook.c, register_a_hook and determine_lib_path (Hook/Registry/Keep,
--                Hook/Registry/Steps, Hook/Registry/Outcome)
--   Hook/Patch   src/hook.c, what install_hook and uninstall_hook write (Hook/Patch/Frame,
--                Hook/Patch/Jumps, Hook/Patch/Undo)
--   Hook/Protect  src/hook.c, the calls of mprotect of install_hook and uninstall_hook
--                (Hook/Protect/Guarded)
--   Daemon       src/server.c, drain_client and Print_Summary (Daemon/Sums, Daemon/Drain),
--                read_all and write_all (Daemon/Transfer)
--   Daemon/Server  src/server.c, accept_client, drain_client and the main loop, with the first
--                message of src/client.c (Daemon/Server/Descriptors, Daemon/Server/Ranks), and in
--                Daemon/Server/Setup its start and its end (Daemon/Server/Closed)
--   Daemon/Logs  src/server.c, the lines of periodic and how Create_Chart_Reports reads them
--                (Daemon/Logs/Decimal, Daemon/Logs/Lines, Daemon/Logs/RoundTrip, Daemon/Logs/Run)
--   Daemon/Reports  src/server.c, Create_Chart_Reports: the busiest file system
--                (Daemon/Reports/Busiest)
--   Daemon/Charts  src/server.c, Create_Trimemd_Name and the rest of Create_Chart_Reports, from the
--                logs to the pages (Daemon/Charts/Page, Daemon/Charts/Job; Daemon/Charts/Names,
--                Daemon/Charts/Outcome, Daemon/Charts/Ending: theorems)
--   Dict         src/dict.c, and Read_Host_List of src/server.c (Dict/Chains, Dict/Lookup,
--                Dict/Hosts, Dict/HostFile; any sequence of calls: Dict/Records, Dict/Unlink,
--                Dict/Refine, Dict/Deletion, Dict/Calls)
--   Client       src/client.c, the messages of a node, and with the daemon in Client/Session
--   Aggregator   src/mpi_aggregator.c, the summary of all nodes (Aggregator/Equal: that it has the
--                sums of the daemon)
--   Tests        concrete inputs, and for each theorem with hypotheses an input that meets them
--
-- Bounds. Counters wrap as in C: 32 bits in src/ooops.c, 64 bits in src/server.c. The walk along a
-- bucket of the hash table has fuel n, the number of elements, which no bucket exceeds (`Valid`).
-- Where the program would write outside its
-- tables (a 49th hook of a module, a 17th module, a message of a rank that is not below the number of
-- nodes) or read what was never written, the model has no result. The search for the next line is given fuel for the bytes that are left, and so is the reading of
-- /proc/cpuinfo, which takes one byte at least at each turn. All other loops are recursions on lists
-- or on the bound of the loop.
--
-- Threads. Throttle and Intercept describe one call as if it were alone. Threads has the
-- interleavings: the mutex covers the counter and the nap, while stamps are written without it. A
-- number of the call that does not wrap is kept there beside the 32 bits of the program. Params/Setup
-- has the interleavings of processes that start at once; what one stores is seen in its order.
--
-- Arguments of the model: the real functions behind the wrappers, clocks, mmap, dlopen, the
-- reduction of MPI, the text of /proc/cpuinfo, /proc/<pid>/maps and /proc/<pid>/cmdline, the
-- events that epoll reports, the files that can be opened, the text of a double and its reading,
-- XXH64, and what the disassembler finds at the entry of a function.
--
-- Not modelled: the creation of the two other shared objects, what is printed on the terminal, the
-- first part of main of the daemon, and the small programs for measuring, all of which are calls of
-- the system; xxHash, libudis86 and utarray, which are other projects.
pub mod Prelude
pub mod Floats
pub mod FileServer
pub mod State
pub mod Params
pub mod Config
pub mod SetParam
pub mod Throttle
pub mod Threads
pub mod Intercept
pub mod Startup
pub mod Layout
pub mod Hook
pub mod Daemon
pub mod Dict
pub mod Client
pub mod Aggregator
pub mod Frequency
pub mod Tests
