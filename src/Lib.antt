-- ===== src/Lib.antt =====
-- The chaos testing libraries: shared objects that a process loads in front of libc and that make its
-- calls fail, wait, or transfer the wrong data, as the rules of a file under /tmp say. Each library
-- (io, net, dns, time, memory, process) reads its own rule file; what they share stands in src/common.
-- This development models the shared parts, libchaos-io from the bytes of its rule file to the
-- decision that a rule applies to a call, and the rule files of libchaos-net, libchaos-dns and
-- libchaos-time, from their bytes to the rule that a call gets.
--
-- How the parts interact. A wrapper asks `chaos_io_config_match_path` for the rule of its operation and
-- path (Io/Match). That first checks the rule file (`chaos_io_config_refresh`): its change stamp
-- (Io/Stamp) says whether to reload (Io/Reload). A reload parses the file (Io/Buffer, one line each by
-- Io/Rule, its qualifiers by Common/Policy/Extract), resolves the prefixes through links (Io/Resolve),
-- gives every rule a hit slot (Common/Hits/Pool) and publishes one of two snapshots. The rule is chosen
-- by its prefix (Io/Select, on the paths of Io/Path); a descriptor's path comes from a cache
-- (Io/FdCache). Whether the rule triggers, and what it does, is src/effects (Io/Actions), by the
-- gates of its qualifiers (Common/Policy/Gates) and its slot (Common/Hits/Slot), which all threads
-- share (Common/Hits/Threads).
--
-- libchaos-net, libchaos-dns and libchaos-time work alike, each with a grammar of its own. What they write out alike is
-- modelled once over an interface: the loop over a rule file over a `Grammar` (Common/RuleFile, which
-- libchaos-io fills too), the reload over a `Library` (Common/Reload), and the choice of the rule by
-- rank and length over a ranking (Common/Ranked). A wrapper of libchaos-net asks for the rule of an
-- endpoint (Net/Select, Net/Reload), which it makes of a socket's address (Net/Socket), and for the
-- two ends of a connection stops at the first where the second cannot matter. libchaos-dns asks for
-- the rule of an effect and a name or an address (Dns/Select, Dns/Reload), libchaos-time for that of an
-- effect, an operation and a clock (Time/Select).
--
-- The files:
--   Prelude          lists, Boolean tests and C strings over the native numbers
--   Common/Policy    src/common/chaos_policy.h: numbers (`chaos_policy_parse_number`), qualifier words
--                    (`chaos_policy_parse_word`), rule lines (`chaos_policy_extract`), gates
--                    (`chaos_policy_window_open`, `chaos_policy_size_ok`), and probabilities
--   Common/Hits      src/common/chaos_hits.h: a slot and `chaos_policy_fire` (Slot), threads that
--                    interleave on a slot as a step relation (Threads), and the pool over reloads:
--                    `chaos_hits_assign`, `chaos_hits_release`, `chaos_hits_pool_reset`,
--                    `chaos_hits_pool_after_fork` (Pool)
--   Common/Status    src/common/chaos_status.h: the record of a rejected line, the content hash
--   Common/RuleLine  the helpers of the line parsers (`chaos_io_trim`, `chaos_io_strip_comment`)
--   Common/RuleFile  the loop of `chaos_io_config_parse_buffer` and its siblings
--   Common/Libc      the interface to the C library; Common/Sample is one for the runs
--   Common/Ranked    `chaos_net_config_select_better`
--   Common/ReadFile  `chaos_net_config_read_file`
--   Common/Snapshot  what the reloads of all libraries share
--   Common/Reload    `chaos_net_config_refresh` and what it calls; the check (Check) and the fork
--                    handler `chaos_net_config_after_fork` (Fork)
--   Io/Path          src/core/chaos_io_internal.h: the helpers on paths
--   Io/Rule          src/config/chaos_io_config.c: `chaos_io_config_parse_line`
--   Io/Buffer        the same file: `chaos_io_config_parse_buffer`
--   Io/Select        the same file: `chaos_io_config_select_rule`
--   Io/Stamp         the same file: `chaos_io_config_hash_mtime`
--   Io/Resolve       the same file: `chaos_io_config_resolve_path`, `chaos_io_config_resolve_rules`
--   Io/Reload        the same file: `chaos_io_config_reload`, `chaos_io_config_publish`
--   Io/Match         the same file: `chaos_io_config_refresh`, `chaos_io_config_match_path`
--   Io/FdCache       src/config/chaos_io_fdcache.c
--   Io/Actions       src/effects/chaos_io_actions.c
--   Net/Endpoint     src/net/chaos_net_endpoint.c: selectors and `chaos_net_endpoint_matches`
--   Net/Socket       the same file: the endpoint of a socket
--   Net/Rule         src/net/chaos_net_config.c: `chaos_net_config_parse_line`
--   Net/Buffer       the same file: `chaos_net_config_parse_buffer`
--   Net/Select       the same file: `chaos_net_config_match_final_loaded` and its siblings
--   Net/Reload       the same file: `chaos_net_config_prepare`, `chaos_net_config_match_endpoint`
--   Dns/Selector     src/dns/chaos_dns_config.c: `chaos_dns_selector_parse` and its match
--   Dns/Value        the same file: the last field of a line
--   Dns/Fields       the same file: `chaos_dns_split_rule_fields`
--   Dns/Rule         the same file: `chaos_dns_config_parse_line`
--   Dns/Buffer       the same file: `chaos_dns_config_parse_buffer`
--   Dns/Select       the same file: `chaos_dns_config_select_rule_domain`
--   Dns/Reload       the same file: `chaos_dns_config_refresh`, `chaos_dns_config_match`
--   Time/Selector    src/time/chaos_time_config.c: `chaos_time_selector_parse` and its match
--   Time/Rule        the same file: `chaos_time_config_parse_line`
--   Time/Buffer      the same file: `chaos_time_config_parse_buffer`, `chaos_time_config_refresh`
--   Time/Select      the same file: `chaos_time_config_select_rule`, `chaos_time_config_match`
--   Time/Stamp       the same file: `chaos_time_config_hash_mtime`
--   Time/Actions     src/time/chaos_time_actions.c: shifted times (Shift), the step back over a series
--                    of reads (Regress), deadlines mapped back (Deadline), sleeps (Sleep)
--
-- Representation. A C string is the list of its bytes before the NUL; an in-place edit is the new
-- list. Machine words are natural numbers with their wrap-around written out. A pointer to a slot is
-- the slot's number in the pool, and `none` is NULL; a NULL that a caller never passes, and that the
-- code only guards against, is left out. A probability is the pair of numbers whose quotient the C
-- code computes, so the rounding of that one division, and of the product with 2 ^ 32 in the draw, is
-- left out. Errno and EAI values are their names; libchaos-time reads them and clock ids as numbers too,
-- so the numbers that the system gives the names are arguments there. `strtoul`, `strtol`, `strtoll`,
-- `realpath`, `inet_pton` and `inet_ntop` are functions that the definitions take as arguments, and no
-- theorem assumes anything of them; readings of the clock, random draws, `stat` and the outcome of
-- reading the rule file are arguments too.
--
-- Fuel. The loops that walk a text run on the rest of the text. `normalize_from` and `scan_words` take
-- fuel, as long as the text plus one: every round takes at least one byte off the text. `ancestor_from`
-- takes as many rounds as the path has bytes, and each makes the path shorter. `carry`, `borrow` and
-- `chunks` take a round for each whole second that is left, and one more. The seconds of a time are not
-- bounded by a word: clocks and the offsets that a rule can have stay far below 2 ^ 63.
--
-- Not modelled: the libraries memory and process and the seccomp supervisor chaos-init, which have rule
-- grammars of their own; what libchaos-net and libchaos-dns do to a call once a rule applies; the wrappers in src/wrappers, src/net, src/dns and src/time; the hits file and the formatting
-- of the status file, which are output; the clock lookup in the vDSO, `dlsym` and thread-local state;
-- memory barriers, except that the threads of Common/Hits/Threads interleave at each atomic access. The
-- descriptor cache and the reload are modelled call by call, not with calls that overlap.
pub mod Prelude
pub mod Common
pub mod Io
pub mod Net
pub mod Dns
pub mod Time
