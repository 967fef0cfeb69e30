-- ===== src/Lib.antt =====
-- ban2fail reads log files, counts offenses by address, and blocks and unblocks addresses with
-- iptables. This library models its containers, its configuration, and the path from a line of a
-- log file to a command.
--
-- How the parts interact: CFGMAP (cfgmap.c) reads the configuration into entries by symbol, and
-- configure (ban2fail.c) calls the initialization functions for its blocks, among them that of
-- MAXOFF (maxoff.c). LOGFILE (logFile.c) turns lines into OFFENTRY records (offEntry.c) in a MAP
-- (map.c), whose buckets are PTRVECs (ptrvec.c), with the help of Target and TS (target.c,
-- timestamp.c). LOGTYPE (logType.c) does this for all log files of a type, and keeps the entries
-- of each in a cache file under the MD5 sum of the log file. The entries of all log files are
-- merged by address. main (ban2fail.c) compares the counts with what MAXOFF allows and puts
-- addresses into two PTRVECs, which IPTABLES (iptables.c) works off in batches. DS (dynstack.c)
-- and MSGQUEUE (msgqueue.c) serve other parts.
--
-- Files: PtrVec models ptrvec.c and ptrvec.h: PTRVEC_addTail is `add_tail`, and so on; the items
-- in order are `loop_fwd`. Map models map.c and map.h: MAP_addKey is `add_key`; the items under
-- a key are `view`. StrMap is the interface of a MAP with strings as keys, Map/AsStrMap fills
-- it. CfgMap models the entries and lookups of cfgmap.c: CFGMAP_append is `append`, the values
-- under a symbol are `values`; CfgMap/Scan, CfgMap/Lines and CfgMap/Reader model its reader,
-- from the string functions up to CFGMAP_file_constructor, CfgMap/Query its queries;
-- CfgMap/Render says which files CfgMap/RoundTrip reads back: it fixes the blanks within a line,
-- and leaves those around it, blank lines and remarks free. OffEntry models offEntry.c,
-- OffEntry/Registry its entries behind a MAP. Target models the scans of target.c and
-- timestamp.c, Target/Setup their initialization from the configuration, LogFile the loops of
-- logFile.c, LogFile/Cache its cache files; LogType models LOGTYPE_proto_constructor of
-- logType.c with the log directory and the cache directory as lists of files, LogType/Order the
-- order of the log files, LogType/Init LOGTYPE_init, LogType/Addresses the merge of the log
-- files of a type; MaxOff maxoff.c, MaxOff/Config its blocks of the configuration, IpTables
-- iptables.c, Ban2fail the decisions of ban2fail.c, Ban2fail/Configure its configure, DynStack
-- dynstack.c, MsgQueue msgqueue.c, Str the buffer of str.c, Util the names of bits and the
-- digits of util.c. Stdio models the conversions of scanf and printf that these use. Prelude has
-- what the modules share. Tests has the runs.
--
-- Memory: `malloc` and `realloc` answer as an argument says; cfgmap.c asserts that it gets
-- memory, and the model grants it. Unsigned numbers wrap at 2 ^ 32 where the source lets them; a
-- vector is valid from 4 to 2 ^ 31 slots, since an index and the number of slots are added.
-- There is fuel in `read_entries` of LogFile/Cache, one round for each byte of the cache file,
-- which LogFile/Restore shows to be enough, in `drain` of Map, one round more than there are
-- items, which Map/Create shows to be enough, in `make_room` of Str, where Str/Append asks for
-- one turn for each byte that is missing, in `fh_read` of CfgMap/Reader for the depth of files
-- that include files (one for a file that includes none), and in `configure` of
-- Ban2fail/Configure for the depth of nested blocks (two, if the blocks of its symbols hold none
-- of them).
--
-- Not modelled: threads and locks, processes, files but those of the log and the cache
-- directory, the reading of the database and the reports by address that it serves, printed
-- output, the sums of MD5, the scheduler (es.c), name servers (pdns.c), GeoIP (cntry.c; the
-- country of an address is an argument), the encoders of str.c but the one for XML, b2f-grep.c
-- and fsckdns.c, since they are input and output, libraries, or parts on which the modelled ones
-- do not rest.
pub mod Prelude
pub mod PtrVec
pub mod Map
pub mod StrMap
pub mod Stdio
pub mod OffEntry
pub mod Util
pub mod CfgMap
pub mod IpTables
pub mod MsgQueue
pub mod DynStack
pub mod Ban2fail
pub mod Target
pub mod LogFile
pub mod LogType
pub mod MaxOff
pub mod Tests
pub mod Str
