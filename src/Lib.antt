-- ===== src/Lib.antt =====
-- iptracking: a verification library of the C programs of the repository.
--
-- The programs record who logs in to a host and keep a set of blocked addresses up to date. sshd's PAM
-- stack runs the callback (pam-daemon/iptracking-pam-callback.c), which fills in an event record from
-- its environment and sends it over a local socket. The PAM daemon (pam-daemon/iptracking-pamd.c) reads
-- the record, tests it (libiptracking/log_data.c), and pushes it onto a queue
-- (pam-daemon/log_queue.c); another thread pops events and hands them to a database
-- (libiptracking/db_interface.c and its drivers). The firewall daemon
-- (firewall-daemon/iptracking-firewalld.c) reads the block list from the database, fills an IP set for
-- rebuilding (firewall-daemon/ipset_helper.c) and puts it into production. Both daemons read their
-- settings from a YAML document (libiptracking/yaml_helpers.c).
--
-- The files:
--   Prelude     names of the library, Boolean tests, signed integers, words, C strings as lists.
--   LogData     libiptracking/log_data.h, log_data.c: log_data_t, log_event_to_str,
--               log_event_parse_str, log_data_is_valid; LogData/Parse: log_data_parse.
--   Chartest    libiptracking/chartest.c: chartest.
--   Callback    pam-daemon/iptracking-pam-callback.c: the record that main fills in (gather);
--               Callback/Send: the loops of connect and send; Callback/Accepted: the record against
--               log_data_is_valid; Callback/Connection: SSH_CONNECTION as sshd writes it;
--               Callback/Main: main from its options to its end, with the alarm.
--   Asprintf    libiptracking/asprintf.c: asprintf, over vsnprintf.
--   Logging     libiptracking/logging.c: logging_set_level, logging_printf, and the options -v and -q.
--   Startup     what main of both daemons does first: the first loop over the options, the file.
--   Yaml        libiptracking/yaml_helpers.c: yaml_helper_doc_node_at_path and the scalar readers.
--   Ipset       firewall-daemon/ipset_helper.c, over the session interface of libipset; Ipset/Argv: the
--               same operations over ipset_parse_argv; Ipset/Session: ipset_helper_init and ipset_helper_fini.
--   Firewalld   firewall-daemon/iptracking-firewalld.c: settings, config_validate, firewall_notify, and
--               the body of timer_thread_entry (timer_elapsed); Firewalld/Daemon: these one after
--               another; Firewalld/Options: the options
--               behind the configuration; Firewalld/Main: config_read_yaml_file and main;
--               Firewalld/Shutdown: the threads, their mutexes, and the handler of the signals.
--   Db          libiptracking/db_interface.c: a driver is the record of its callbacks; Db/Calls: what a
--               driver asks of its library, as a trace, and when such a trace is in order;
--               Db/Enumerator: the loop over db_blocklist_enum_next; Db/LastError: the text of the last
--               error; Db/Shown: what a line of db_summarize_to_log holds.
--   Csv         libiptracking/db_drivers/db_instance_csvfile.c.
--   Sqlite, Mysql, Postgresql
--               libiptracking/db_drivers/db_instance_sqlite3.c, db_instance_mysql.c and
--               db_instance_postgresql.c: each its instance, its operations (open, close, log_one_event),
--               its enumerator (Blocklist), and its handles over any sequence of operations (Handles).
--               Postgresql/Listener: the notification thread and the registrations as a step relation;
--               Postgresql/Listener/Session: the thread's own connection and statements;
--               Postgresql/Summary: what the log shows of a configuration;
--               Postgresql/Registered: registrations on a database of the driver;
--               Postgresql/Driver: the driver's callbacks, and the block list's way into the kernel.
--   Pamd        pam-daemon/iptracking-pamd.c: settings, config_validate, a connection of
--               event_thread_entry; Pamd/Socket: the socket of that thread; Pamd/Runloop: db_runloop;
--               Pamd/Shutdown: the threads from a signal on, with what they keep in
--               Pamd/Shutdown/Invariant;
--               Pamd/Options: the options behind the configuration; Pamd/Main: config_read_yaml_file
--               and main; Pamd/System: the event thread and the database thread on the queue;
--               Pamd/System/Delivery: what becomes of the events.
--   LogQueue    pam-daemon/log_queue.c: a record's address is a number, NULL is 0, and the records lie
--               in a link function and a datum function; LogQueue/Backoff: the loop of log_queue_push.
--   Login       a login over ssh, from the callback's environment to the daemon's database.
-- A module Tests beside a component holds runs at concrete inputs.
--
-- Conventions: a C string is the list of its characters without the NUL, a character array the list of
-- its bytes. Unsigned words keep their wrap-around (Prelude/Words). A result that is NULL or false is
-- none where the code gives nothing else back. What the other threads do while one sleeps or waits is a
-- function on the queue.
--
-- Fuel: find_used, the search for a record in the used list, gets one more than the number of used
-- records; at_path gets the length of its path, since a round takes at least one character; take_all,
-- the loop over an enumerator, gets one more than the rows, since a call takes a row or is the last.
--
-- Parameters: the answers of calloc and realloc (Memory), connect and send (Answer), strtol, libipset
-- (Library), the clock, vsnprintf, fopen and fprintf, poll, accept, bind, and the answers of sqlite3,
-- libmysqlclient and libpq (the Library of each driver).
--
-- Not modelled: log_queue_summary, usage and the other output; the scripts, schemas and build files;
-- interleavings of the timer's rebuild with a notification's, which the code does not keep apart; a
-- listener of PostgreSQL that is cancelled with its connection; a close of the database while an
-- enumerator is open.
pub mod Postgresql
pub mod Asprintf
pub mod Prelude
pub mod Sqlite
pub mod Startup
pub mod LogData
pub mod Chartest
pub mod Callback
pub mod Logging
pub mod Yaml
pub mod Ipset
pub mod Firewalld
pub mod Db
pub mod Csv
pub mod Mysql
pub mod Pamd
pub mod LogQueue
pub mod Login
