-- ===== src/Lib.antt =====
-- SLG, a load injector for HTTP servers: a master (slg_master.c) sends each slave (slg.c) an order, the
-- slave plays a number of clients against the server for the time it was given and reports its
-- measures, and the master gathers the measures of all slaves wave by wave. A slave runs two threads,
-- one that connects and writes and one that reads; they hand the clients to each other through two
-- circular buffers (circular_buffer.c). The model follows the Makefile's configuration: HTTP_PROTOCOL,
-- USE_RST, UNIQUE_FILE_ACCESS_PATTERN, IGNORE_HTTP_CONTENT, one network interface.
--
-- Which file models which part:
--   Base      the shared helpers: arrays, C strings, printf of integers, atoi, strtok, words of 32
--             and 64 bits with their wrap-around written out, and Outcome, a result or a stop.
--   Circular  circular_buffer.c: CircularBuffer is circularBuffer; open_circ, close_circ, get_circ,
--             put_circ and print_circ are the functions of these names, with an access outside the
--             array as none. Circular/Queue is the first-in first-out queue that they implement.
--             Circular/Concurrent has get_circ and put_circ taken apart into single accesses, one
--             thread on each side, as a step relation on a sequentially consistent memory.
--   Time      debug_tools.c: compare_time.
--   FdSet     slg.c: add_client_to_master_write_set and remove_client_from_master_write_set on
--             master_connect_fds and max_connect_socket.
--   Os        what the system calls answer. Each handler takes the answers of its calls as arguments
--             in the order in which it makes them; nothing is assumed of them.
--   Client    slg.c: client_t as Client and the global measures as Stats; change_state here,
--             BUILD_REQUEST and send_request in Client/Request, init_client_socket and
--             initialize_ and finalize_connect_client_to_server in Client/Connect, treat_error,
--             read_complete, read_headers, read_content and read_response in Client/Receive,
--             build_memcached_request in Client/Memcached. A PANIC, an exit, a failed assert or an
--             access outside an array is a Fault.
--   Slave     slg.c: the globals and the locals of the threads as System; init_clients and the set-up
--             of main here, one round of each loop of writingFunc in Slave/Writer and of readingFunc in
--             Slave/Reader. Slave/Threads interleaves these rounds in any order, with any answers.
--             Slave/Totals has check_parameters, compute_stats and reset_stats. Slave/Rounds has
--             writingFunc and readingFunc as whole functions, and Slave/Daemon the loop of main over
--             the orders, with the threads run by any scheduler (an Action is a round that it allows).
--   Protocol  the order: send_order_to_slaves of slg_master.c and waitMasterOrder of slg.c
--             (Protocol/Order); the response: send_stat_response of slg.c and read_slaves_response of
--             slg_master.c (Protocol/Response); the reading loop that they share (Protocol/Line).
--   Sample    stats_utils.c: stats_sample_Lf_t and its functions, the tables of unsigned longs; the
--             deviations, intervals and percentiles in Sample/Percentile, with qsort as a parameter.
--   Specweb   slg.c built with SPECWEB99_FILE_ACCESS_PATTERN: setupZipf, zipf,
--             get_new_value_from_table and choose_url, on any arithmetic of doubles.
--   Specweb05 slg.c built with SPECWEB05_FILE_ACCESS_PATTERN, and its tables in master_slave.h: zipf and
--             choose_url.
--   Master    slg_master.c: parse_config_file, check_all_parameters_filled, init_slaves_info,
--             fill_master_stat_report and the waves of main. Master/Iteration has connect_to_slaves,
--             warmup_time and one iteration of main on its connections, Master/Campaign the loops of
--             main over the waves on these, which refine Master/Waves, Master/CommandLine
--             parse_command_line on what getopt_long gives, and Master/Printed the values of print_stats.
--
-- Bounds. Loops over an array or a list are recursions on it; digits has the fuel n + 1 for the number
-- n, and a number has at most n + 1 digits; read_lines has a unit for each byte of the file, and a line
-- takes one at least; run_waves has one for each wave and one for the test that ends the loop. The filling
-- loop of a thread gets one round more than there are clients. The loops of the threads over time, and that of the
-- daemon over the orders, take as many rounds as there are answers; Reach is the closure of the rounds of
-- both threads, so what is proved of it holds for runs of any length.
--
-- What is simplified. A round of a thread is one step where the clients are concerned; that a call of the
-- buffers may stand as one step is what Circular/Concurrent is about. The sums of times are whole numbers
-- of microseconds, which a long double holds below 2 ^ 64. -1 and -2 of maxFd are both none. Other
-- floating-point values are parameters. The text that goes to the terminal is left out, except for
-- print_circ. C's undefined behaviour is a fault where the model meets it: a response that fills the
-- master's buffer, or a slave's port that no int holds. floor(nb_elem * side_percent_to_cut) is written
-- out over an arithmetic of doubles and floats, of which Sample/Percentile/Rounding uses that an
-- operation exceeds its exact result by at most a thousandth.
--
-- What is not modelled: init_parameters, which only sets defaults; the branch of read_headers with
-- MEMCACHED_PROTOCOL, which the Makefile compiles out; the listening socket of a slave, the signal
-- handlers, the frequency of the CPU and the text of the printed reports, which are calls of the system.
pub mod Base
pub mod Circular
pub mod Time
pub mod FdSet
pub mod Os
pub mod Client
pub mod Slave
pub mod Protocol
pub mod Sample
pub mod Master
pub mod Specweb
pub mod Specweb05
