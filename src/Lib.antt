-- ===== src/Lib.antt =====
-- A model of the core of yuhaiin, a rule-based proxy: how a connection is matched to rules, and the
-- codecs and queues that its packets pass through.
--
-- Parts and how they meet. A connection's address is looked up in the tries of domain names and of
-- address prefixes, which give the names of the lists it is on. The rules, compiled to matchers, ask
-- for these lists and for the connection's port, network, inbound and country; the first that
-- matches gives the mode. The lists are read from a book and from downloaded files into the tries,
-- and are read again when they change. The UDP packets of one source share a session, which
-- remembers where each destination is sent and as whose the replies come back. Addresses travel in
-- the form of SOCKS5, and packets over QUIC are cut into datagrams and put together again. Queues of
-- packets are ring buffers. Names are resolved through caches of bounded size; a name can be given
-- an address of a reserved prefix in place of its own, and the cache with a reverse map leads from
-- that address back to the name.
--
-- Files, with the code they model:
--   Domain    pkg/net/trie/v2/domain: reader.go (`Reader`, `next`, `str`), memory.go (`insert_labels`,
--             `search`, `remove_labels`), fqdn.go (`insert`, `batch`, `search_string`, `remove`)
--   Cidr      pkg/net/trie/v2/cidr: trie.go (`insert`, `search`, `remove`), cidr.go (`insert_ip`,
--             `remove_ip`, `search_ip`, `clear`)
--   Tries     pkg/net/trie/v2/trie.go (`insert_text`, `batch_texts`, `search_tries`, `remove_text`), over
--             Domain and Cidr
--   Route     pkg/route/nested.go (`matches`), with the context of pkg/net/netapi/context.go and the
--             rules of pkg/contract/route/types.go; Route/Modes is runtime_types.go, Route/Texts has
--             NewPort, NewGeoip and NewInbound, Route/Rules has ParseMatcher (`parse_matcher`), Update,
--             Add and Match, Route/Order has InsertBefore, InsertAfter and ChangePriority
--             Route/Settings has the settings of pkg/route/rule.go, and skipResolve,
--             getResolverFallback and the choice of the mode in dispatch of pkg/route/route.go
--   Lists     pkg/route/list.go: the host and process matchers (`load_host_list`,
--             `refresh_host_trie`, `refresh_process_trie`), Lists/Entries has getIter, Lists/Loading
--             carries out the calls of ParseMatcher and Update (`do_calls`), Lists/Config has
--             SaveContractConfig, Lists/Remote RefreshContract, Lists/Geoip the GeoIP handle,
--             Lists/Activation the threads that bring a change into the index (`Move`, a step of one
--             thread)
--   Nat       pkg/net/nat/source.go (`write`, `write_to`, `map_addr`, `reply_from`); Nat/Table is table.go
--             with the queue, run and closing of a source (`step_table`)
--   Paging    pkg/utils/paging/paging.go (`normalize`, `slice`)
--   Socks     pkg/net/proxy/socks5/tools/tools.go, with parts of pkg/net/netapi/address.go
--   Yuubinsya  pkg/net/proxy/yuubinsya/header.go (`encode_header`, `decode_header`), over Socks
--   Quic      pkg/net/proxy/quic/frag.go (`split`, `merge`, `sweep`)
--   Ring      pkg/utils/ringbuffer/ringbuffer.go
--   Lru       pkg/utils/lru/lru.go (`add`, `load`, `delete`, `clear_expired`), LoadOrAdd of sync.go;
--             Lru/Recency is the reference, the entries alone in the order of their use
--   ReverseLru  pkg/utils/lru/reverse.go, over Lru: the callbacks keep the map from values to keys
--   FakeIp    pkg/net/dns/fakeip: pool.go (`get_fake_ip_for_domain`, `get_domain_from_ip`) and cache.go,
--             over ReverseLru, with the disk cache as a parameter
-- The children of a part hold its proofs and the descriptions they are stated with: Domain/Rules
-- and Cidr/Table are plain lists of rules, Route/Rules/Semantics the meaning of matchers,
-- Route/Rules/Stated what rules ask and which lists they name, read off their expressions,
-- Lists/Hosts and Lists/Found what the calls of the list matchers promise, Lists/Remote/Messages
-- what a refresh is to save.
-- Prelude and Bytes are shared; Tests has every theorem at a concrete input.
--
-- Bounds and fuel. Bytes are numbers below 256; the counters of `merge` wrap at 2^32, identifiers at
-- 2^64, the length of an address in `resolve_addr` at 256. The clock's readings are numbers, and a
-- reading and a timeout together are taken to stay below 2^63. The reader of names runs on fuel, one
-- more than the name has bytes, and yields a label for each separator and one more; the search for an
-- address runs on fuel for twice round its prefix. All else is structural recursion.
--
-- Not modelled: locks and atomics (each call is one step, but in Lists/Activation, where each
-- access is one), pools of memory, logging and metrics, the tries on disk, HTTP downloads, network
-- I/O, and prefixes for names that start at address 0. White space in texts is that of ASCII, where
-- strings.TrimSpace and strings.Fields know Unicode's. In Lists/Activation, the replacing of
-- downloaded files by a RefreshContract that then fails without a notification, and the loads of an
-- Update during a refresh, are no steps; `revision` counts the changes that are followed by a
-- notification. The order in which the set of a host matcher gives its names to a refresh is a list
-- of names. `net.isDomainName`, netip's reading of a text, the disk cache, the book of lists with
-- the cached files, and what dialers, resolvers and connections answer are parameters.
mod Prelude
mod Tests
pub mod Bytes
pub mod Ring
pub mod Lru
pub mod ReverseLru
pub mod FakeIp
pub mod Yuubinsya
pub mod Tries
pub mod Cidr
pub mod Domain
pub mod Lists
pub mod Nat
pub mod Paging
pub mod Quic
pub mod Socks
pub mod Route
