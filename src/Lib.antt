-- ===== src/Lib.antt =====
-- A verification library for programs of "The Linux Programming Interface".
--
-- The largest part is inotify/inotify_dtree.c, a program that caches the directories of some trees and
-- keeps the cache in step with the file system by inotify events. Its modules follow the program:
--   Inotify/Cache.antt     the array wlCache: findWatch, addWatchToCache, rewriteCachedPaths and the rest;
--                          Cache/View reads the array as a finite map from descriptors to paths, which
--                          Cache/Update and Cache/Rename use to say what the functions do
--   Inotify/Watcher.antt   the global variables as a record, the system calls as a record `Kernel`, and a
--                          state monad whose outcomes are a return, an exit of the program, or what C
--                          leaves undefined, the use of what was never set included; Watcher/Rules
--                          has a rule for each way to build a function
--   Inotify/Roots.antt     rootDirPaths: copyRootDirPaths, zapRootDirPath
--   Inotify/Tree.antt      traverseTree, watchDir, watchSubtree, zapSubtree, reinitialize, the checks
--   Inotify/Events.antt    processNextInotifyEvent, a function for each branch
--   Inotify/Loop.antt      processInotifyEvents: the buffer, its second read() and firstTry
--   Inotify/Commands.antt  executeCommand
--   Inotify/Main.antt      main: the options, the first build, the loop over select()
--   Inotify/Invariant.antt the invariant; its children, Commands/Keeps and Main/Runs go through the
--                          functions with it
-- `Kernel` has a state of its own, which each call may change in any way: other processes work on the
-- file system between any two calls. Its functions are parameters; nothing is assumed of them but what a
-- theorem names: read() returns at most the bytes asked for and well-formed events. Where the cache grows,
-- markCacheSlotEmpty prints the new slots, which were never set, to the log file or, with VB_NOISY, to
-- stderr: this is `log_new_slots` of Inotify/Tree.antt, and undefined. The invariant has neither.
--
-- Other files model small modules that many programs share:
--   Sockets/ReadLine.antt, Sockets/ReadLineBuf.antt, Sockets/Blocks.antt
--                          sockets/read_line.c, sockets/read_line_buf.c, sockets/rdwrn.c over the list of
--                          results that read() or write() will give
--   Acl.antt               parseEntrySpec and parseACL of acl/acl_update.c; the look-up of user and group
--                          names is a parameter, for which UserIds.antt has a value
--   Acl/Update.antt        the rest of acl/acl_update.c, findEntry, setPerms and main, over libacl as the
--                          parameter `LibAcl`; Update/Search and Update/Safety have the theorems, and
--                          Update/Options what the options ask for
--   GetNum.antt            lib/get_num.c over strtol() as a parameter
--   ItimerSpec.antt        timers/itimerspec_from_str.c over atoi() as a parameter
--   FilePerms.antt         files/file_perms.c
--   UserIds.antt           users_groups/ugid_functions.c over getpwnam() and its kin and strtol() as parameters
--   Shell.antt             procexec/system.c: the signal mask and the actions of the caller and the child, by
--                          what fork() and waitpid() return
--   Daemon.antt            daemons/become_daemon.c, by what its calls give; Daemon/Detached has the theorem
--   Setenv.antt            proc/setenv.c over a list of strings, with the getenv() and putenv() of the C
--                          library
--   Sockets/Inet.antt      sockets/inet_sockets.c; the system calls are the parameter `Network`, of which
--                          `IsNetwork` says which descriptors they open and close; Inet/Descriptors has the
--                          theorems; Sockets/Unix.antt is sockets/unix_sockets.c on the same parameter
--   Sockets/Sendfile.antt  sockets/sendfile.c, where each round of the loop is given by what read() and
--                          write() are willing to do; Sendfile/Range has the theorem
--   SemOps.antt            parseOps of svsem/svsem_op.c, with strtol() as far as it reads digits; SemOps/Specs
--                          has the text of operations and SemOps/Text the theorem
--   NsCapable.antt         namespaces/ns_capable.c over the kernel as a parameter, with the descriptors that
--                          are open; NsCapable/Rules has the rules on capabilities in user namespaces, and
--                          what is relied on, NsCapable/Answer the theorem
--   FileMessages.antt      svmsg/svmsg_file_server.c with svmsg/svmsg_file_client.c: a file, or the failure to
--                          open it, as messages; FileMessages/Delivery has the theorems
--   Sockets/Seqnum.antt    the loop of sockets/is_seqnum_sv.c, on top of readLine: a client is its reads and
--                          whether its write() works; atoi() and the text of an int are parameters;
--                          Seqnum/Ranges has the theorems
--   CString.antt, Syscall.antt, Prelude.antt
--                          C strings as lists of bytes, results of system calls, shared names and lemmas
--   Inotify/Tests.antt, Sockets/Tests.antt, Sockets/Inet/Tests.antt, Sockets/Seqnum/Tests.antt,
--   Acl/Update/Tests.antt, UtilityTests.antt, ProcessTests.antt,
--   ProtocolTests.antt, ProgramTests.antt, NsCapable/Tests.antt, Daemon/Tests.antt,
--   MultiJoin/Tests.antt
--                          the theorems at concrete inputs
--
-- Programs that run at once are modelled with all their interleavings, as steps on a state:
--   Svsem.antt             svsem/binary_sems.c and svsem/event_flags.c. The semaphores are the parameter
--                          `Kernel`; `IsKernel` says what semop() and semctl() do. A function that waits is
--                          a function of the next event of its semop(): it is performed, interrupted by a
--                          signal, or fails.
--   Transfer.antt          svshm/svshm_xfr_writer.c and svshm/svshm_xfr_reader.c, which hand a stream of
--                          bytes over in a shared memory segment, on top of Svsem. A state has the
--                          semaphores, the segment, the place where each program stands, the input that is
--                          left and the output. Transfer/Invariant is the invariant, WriterKeeps, ReaderKeeps
--                          and Keeps show that each step keeps it, Progress that some step always leaves
--                          less work, Delivery puts these together.
--   ProdCons.antt          threads/prod_cons_cv.c. A state has the variables, the mutex and the number of
--                          producers and of consumers at each place of the code, since threads of a kind are
--                          alike; ProdCons/Invariant and ProdCons/Completion have the theorems.
--   SemInit.antt           svsem/svsem_good_init.c: any number of processes, of which one creates and
--                          initialises a semaphore that all use. A state has the semaphore and the place of
--                          each process; SemInit/Order has the theorem.
--   OneTimeInit.antt       threads/one_time_init.c, the threads counted by their place; OneTimeInit/Once has
--                          the theorems. The failure of the lock is a step that a parameter allows.
--   MultiJoin.antt         threads/thread_multijoin.c: the array of threads by their places, with the main
--                          thread; MultiJoin/Sound is the invariant, MultiJoin/Joined has the theorems.
--   PidFile.antt           createPidFile of filelock/create_pid_file.c with the lock of
--                          filelock/region_locking.c: any number of processes and the one file; a process may
--                          end at any time. PidFile/Instance has the theorem.
-- In all of them a step of any thread or program may come next; a wait may be interrupted or end for no
-- reason, and a call may fail at any time, save those of MultiJoin, whose failure ends the program. A thread
-- that is not created yet counts as one before its first step. Their int counters are numbers without a bound.
--
-- Bounds. PATH_MAX is 4096 and NAME_MAX 255, as on Linux; a `struct inotify_event` has 16 bytes, so that
-- the buffer of 100 * (16 + 255 + 1) bytes holds 1700 events at most. An event takes two rounds of the
-- loop at most, so that 3402 rounds for each read() are enough fuel; the loop is proved not to run out of
-- it. User namespaces are nested 32 deep at most, so that the search among their ancestors has 34 rounds.
-- All other loops are recursions on a list.
--
-- Not modelled: printed and logged text (logMessage but for the slots that were never set,
-- displayInotifyEvent, usageError, gnFail), the failure of malloc() and its kin, where the program exits,
-- the name of the stop file, and the missing terminator where strncpy() fills a path of PATH_MAX bytes.
-- A descriptor -1, a count -1 and a null
-- pointer are `none`. acl_free() and the clean-up of the shared memory change nothing else. The other
-- directories, most of which demonstrate system calls, have no model here.
pub mod Prelude
pub mod CString
pub mod Syscall
pub mod Inotify
pub mod Sockets
pub mod Acl
pub mod GetNum
pub mod ItimerSpec
pub mod FilePerms
pub mod UserIds
pub mod Setenv
pub mod Shell
pub mod Svsem
pub mod Transfer
pub mod ProdCons
pub mod SemInit
pub mod OneTimeInit
pub mod MultiJoin
pub mod PidFile
pub mod FileMessages
pub mod SemOps
pub mod NsCapable
pub mod Daemon
pub mod UtilityTests
pub mod ProcessTests
pub mod ProtocolTests
pub mod ProgramTests
