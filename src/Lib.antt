-- ===== src/Lib.antt =====
-- ig-libs: the data and protocol core of the library.
--
-- Parts and how they interact. A SharedQueue owns a RingBuffer and a pipe whose ends wake the other
-- side; the ring takes its capacity from the helpers of utils.h. A ProtoDispatcher sends messages to
-- the handlers that plugins register. A TimerManager calls what is due. A TcpClient sends and receives
-- over one socket, and a TcpClientMgr takes several clients in turn, which it makes from a list of hosts.
-- A Config is read from files that may include others. fs_utils lists and makes directories with the help
-- of split, and daemon.cpp detaches a process and locks its file. singleton.cpp makes one object for all threads,
-- and a Thread starts the threads of one object. An EventHandler passes events on, and log.h tests the level of messages.
--
-- Which file models what:
--   Base           lists, integers and 64-bit words that the modules share.
--   Utils          utils.h: is_power_of_2, roundup_pow_of_two.
--   Ring           ring_buffer.h, ring_buffer.cpp: RingBuffer and each ring_buffer_ function. The memory is a
--                  list of bytes, the counters wrap at 2 ^ 64, and a copy outside the memory is a fault.
--                  Client has the bounded queue that the ring is compared with. Ring/Shared has one writer and one
--                  reader at work at once: a call is its first look at the other side's counter, a step for each
--                  byte that memcpy moves, in ascending order, and the update of its own counter.
--   Queue          shared_queue.h, shared_queue.cpp: SharedQueue's init, uninit, read, write and sizes, with
--                  the system calls they make as a log. Client has the bounded queue of messages that a queue's life
--                  is compared with. Queue/Threads has a thread in write and one in read at once, over Ring/Shared.
--   Text           string_utils.h, string_utils.cpp: split, is_all_digit, trim, strtodigit (read as
--                  uint32_t), str2int, is_utf8. Text/Time has parse_str_time, with strptime at its one format.
--   Timer          timer.h, timer.cpp: add_timer, remove_timer, clear, process_timer. A manager is its list. Timer/Reentry
--                  has process_timer with callbacks that call the manager: the list before, at and behind the iterator.
--   Dispatcher     proto_dispatcher.h, proto_dispatcher.cpp, proto_handler.h: register_proto, unregister_proto,
--                  dispatch, clear_protos, timer_event (`timer_event_all` for every number, `timer_event_of`
--                  for one), print_supported_protocols. The table is an association list with each number once; Client
--                  has the map that it stands for.
--   PluginLoader   plugin_loader.h, plugin_loader.cpp, plugin_iface.h: load and unload of a path, `load_list` and
--                  `unload_list` of a list of paths, clear_plugins. The table is sorted by path and has the addresses of the interfaces, into
--                  which load writes the handles.
--   TcpClient      tcp_client.h, tcp_client.cpp: send, recv, writev, readv, close, is_alive, is_real_alive. TcpClient/Connect
--                  has connect, connect_host, reconnect, set_timeout and get_ip_port, with the system calls they make.
--   TcpClientMgr   tcp_client_mgr.h, tcp_client_mgr.cpp: select_connection, get_available_connection, the data
--                  calls with a connection's number (`send_to`, `recv_from`, `writev_to`, `readv_from`) and without,
--                  close_connection, uninit. A pointer to a connection is its place in the vector. TcpClientMgr/Hosts has
--                  init, check_connection and uninit with the system calls of their clients, and TcpClientMgr/Session all
--                  methods on one kernel.
--   Config         conf.h, conf.cpp: parse, load, reload and get (`get_int`, `get_float`, `get_text`). The table is an
--                  association list with each key once.
--   Files          fs_utils.h, fs_utils.cpp, filelister.h, filelister.cpp: FileLister, makedir, get_dir_files_size,
--                  get_dir_free_size, convert_disk_size_unit. A path goes from a directory to its entries.
--   Daemon         daemon.cpp: daemonize on a process and its table of descriptors, and daemon_lock with a log of calls.
--   Singleton      singleton.h, singleton.cpp: GetInstance, each access to shared memory a step of a thread.
--   Thread         thread.h, thread.cpp: run, detach, join, and thread_func, each virtual call a step of a thread.
--   Events         event_handler.h: EventHandler.
--   Log            log.h, log.cpp: LOG_BASE, LOG, ERROR_LOG, DEBUG_LOG. The others differ in the level, LOG_US in the text.
--
-- What is a parameter: the memory calls (Ring.Allocator), pipe2, the virtual functions of the handlers and
-- the callbacks of the timers, the clock, the dynamic linker, the functions of plugins and the memory of their interfaces, and the
-- answers of the kernel to the data calls of a client; for Connect a kernel and a resolver with a state
-- (Net), and whether `new (std::nothrow)` gives memory; the contents of files and directories, mkdir, stat and
-- statfs; atof and the arithmetic of double; fork and the calls of daemonize; mktime; the answers of pthread; the
-- logger. The Makefile defines NDEBUG, so an assert is no code. The theorems on handlers and
-- callbacks record their calls: an answer may depend on the call, not on earlier ones; those of the linker and
-- the plugins may depend on all that happened before.
--
-- Bounds and fuel. The loop of split has as much fuel as the text has bytes, each turn taking one or more;
-- that of is_utf8 one more than the bytes, and running out is `none`. The loops of send and recv run over the
-- list of answers; with answers that move enough bytes they end. The selection loop has as many rounds as
-- connections. parse has fuel for each file that is inside another; it is enough where no files include one
-- another in a circle. The loop of get_dir_files_size has one round more than the directory has entries, the
-- loop of convert_disk_size_unit eleven rounds of its nine units, and that of daemon_lock one more than its 16 bytes.
-- A pass of Timer/Reentry has fuel for each turn; 1000 turns are enough where callbacks only add timers and
-- none returns 1, and without that no fuel need be enough.
-- `unsigned long` and `size_t` have 64 bits, `int` and `unsigned int` 32.
--
-- Not modelled: memory orders weaker than the program's; the barriers of the ring exclude them, and the
-- singleton has none. Two writers or two readers of one ring; negative timeouts; the messages that the other
-- parts log, on which no result depends. log_base.h and log_base.cpp are taken from another project.
pub mod Base
pub mod Utils
pub mod Ring
pub mod Queue
pub mod Text
pub mod Timer
pub mod Thread
pub mod Daemon
pub mod Dispatcher
pub mod Config
pub mod Events
pub mod Files
pub mod Log
pub mod PluginLoader
pub mod Singleton
pub mod TcpClient
pub mod TcpClientMgr
