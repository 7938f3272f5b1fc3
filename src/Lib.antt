-- ===== src/Lib.antt =====
-- pdnsd, the caching DNS proxy of the service (service/src/main/jni/pdnsd/src). A query is read from
-- a message (dns.c), its name is looked up in a hash table (hash.c) of cache entries (cache.c), each of
-- which holds record sets; a list orders the sets by age for purging, and one readers-writer lock
-- guards it all.
--
-- Names models domain names in transport format (helpers.h, helpers.c): rhnlen, rhnsegcnt, skiprhn,
-- skipsegs, rhncpy, isnormalencdomname, rhnicmp, and in Names/Text str2rhn and parsestr2rhn. A
-- pointer is the list of the bytes behind it, and a read past the end is a fault, `none`. The loops
-- take the length of the buffer as fuel, of which every round uses at least one byte.
--
-- Message models names in messages (dns.c): decompress_name in Message/Decompress, with fuel for every
-- byte of the name and every pointer; domain_match and compress_name in Message/Match and
-- Message/Compress, with proofs in Message/Fits and Message/CompressFits.
--
-- Hash models hash.c: a bucket is the list of its entries, a pointer into a bucket the number of
-- entries before it. The names are an interface, Hash/Key, of what the table needs from dns_hash and
-- rhnicmp. Hash/Names is dns_hash itself, Hash/NameKeys fills the interface with it and rhnicmp, for
-- proper names, and Hash/NameTable states the theorems of the table for these.
--
-- Cache models cache.c. Cache/Lock is the lock: each stretch of code between two waits is a function
-- on the lock's variables, and `step` places threads before, inside and behind it; the mutex makes
-- the stretches atomic. Cache/Rrl is the list rrset_l, with insert_rrl and sort_rrl. Cache/Cent holds
-- the cache entries: Cache/Cent.antt their types and add_cent_rrset_by_index and
-- del_cent_rrset_by_index, Records add_cent_rr, free_cent and negate_cent, Copy copy_cent, Purge
-- purge_rrset and purge_all_rrsets, Conflict cr_check_add, Ttl adjust_ttl and adjust_dom_ttl. The
-- outcomes of malloc and the sizes of the C types are arguments. Times are natural numbers, the
-- sizes natural numbers without a bound.
--
-- Cache/Store models the whole cache of cache.c: the counters, the list and the entries. There the hash
-- table is the list of its entries, looked up with an equivalence of names; Hash/Table shows the table to
-- be such a map, and Names/Equivalence that rhnicmp is such an equivalence. A pointer to an entry is its
-- name, and an entry is written back under it. Store.antt holds remove_rrl, del_cent, del_cache_ent and
-- del_cache, Purge purge_cent and purge_cache, Adding and Add add_cache, Look lookup_cache with both
-- locks, getlocalowner, lookup_cache_local_rrset, invalidate_record and set_cent_flags. The other
-- modules hold proofs: Books the accounts of the cache, Entry, Shrunk, Kept, Filled and Grown what keeps
-- them, Above and Found the search for an ancestor, Timely, Tested and Fresh the lookup.
--
-- Query models how dns_answer.c reads a query: Query/Questions decode_query and Query/Records
-- decode_query_additional, over decompress_name, Query/Process the checks of process_query up to its
-- call of compose_answer, Query.antt the header and mk_error_reply, and Query/Opt add_opt_pseudo_rr,
-- remove_opt_pseudo_rr and ans_ttl. InBounds, RecordsInBounds and Answered hold the proofs. The loops
-- count the questions and records of the header.
--
-- Exchange models the exchange of one query with one server in dns_query.c. Exchange.antt holds
-- query_stat_t, switch_to_udp, switch_to_tcp, realloc_or_cleanup and p_cancel_query, Tcp and Machine
-- p_query_sm. The results of the system calls are a record, Calls; ENABLE_IPV6 is defined, where
-- run_ipv4 set is the build without it, and so are both TCP and UDP queries. The labels tryagain,
-- retry_tcp_connect and retry_udp_connect are recursion on fuel; two rounds are enough for each, since
-- the way back goes over to UDP or uses up the fallback address. Runs is a query from its start to its
-- end, with the repetitions of p_exec_query and the timeouts of p_recursive_query; Handled,
-- BalancedTcp, Balanced and Buffer are proofs.
--
-- Reply models what dns_query.c makes of a reply: Reply.antt rr_to_cache, lookup_cent_array and
-- soa_minimum, Rdata and Records rrs2cent, Sections the question and the three sections in p_exec_query,
-- Rcodes its sanity checks and what it does by the code of a reply, and Refs how it remembers the
-- references to NS and SOA records of the entries. They use decompress_name of Message,
-- add_cent_rr of Cache and the OPT records of Query. The loops count the records of the header. Bounded,
-- RdataInBounds, Entries, Sound, Stored, Transcribed, SectionsRead and RefsBounded are proofs.
--
-- Keywords models the lookup of keywords in consts.c: keyncmp, binsearch_keyword, with the length of
-- the table as fuel, and lookup_const.
--
-- Config models the reading of a word in conf-parser.c, scan_string; the recursion is on the text.
-- Config/Words describes the words apart from the buffer.
--
-- DynArray models the dynamic arrays of list.c, and Escape escapestr and rhn2str of helpers.c.
--
-- Not modelled: add_reverse_cache, empty_cache and destroy_cache; cache files; in dns_query.c
-- bind_socket, the messages' contents beyond their id, the reject list, negative caching and the choice
-- of servers; compose_answer, the threads and the sockets of dns_answer.c; the rest of the
-- configuration (conf-parser.c, conff.c); servers.c, netdev.c, icmp.c, status.c, main.c, thread.c and
-- error.c, which are system calls, timers and logging; libancillary and jsocks, other projects'
-- libraries; and the Java service.
mod Prelude
pub mod Names
pub mod Message
pub mod Hash
pub mod Cache
pub mod Query
pub mod Exchange
pub mod Reply
pub mod DynArray
pub mod Keywords
pub mod Config
pub mod Escape
