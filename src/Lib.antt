-- ===== src/Lib.antt =====
-- A verification library for rustybmp, a monitoring station for BGP: routers report their sessions
-- and routes by the BGP Monitoring Protocol (BMP), the station parses the reports, keeps a table of
-- routes per peer, and judges routes by published authorisations.
--
-- The parts, and the files that model them:
-- - Base: what the files share. Base/Text has texts as lists of bytes, Base/Table the `HashMap`s, as
--   association lists.
-- - Core, for crates/rbmp-core/src: Core/Bmp/Parser is bmp/parser.rs, function by function under
--   its name, Core/Bmp/Types and Core/Bmp/PathStatus are the files bmp/types.rs and
--   bmp/path_status_tlv.rs. Core/Bgp has the BGP parsers that it calls: Capability, Open, Update,
--   and Nlri with NextHops are the files of those names in bgp/, Family, AsPath and Attributes the
--   types of bgp/types.rs; AttributeParser, TunnelEncap and Bgpsec are bgp/attributes.rs, with the
--   AS path parser in AsPath.
--   Core/Collector is collector_protocol.rs, over the sources of bytes of Core/Io.
-- - Rib, for crates/rbmp-rib/src: Rib/Key has the keys of routes, Rib/Table is table.rs, Rib/Session
--   session.rs, Rib/Manager manager.rs with event.rs. `process` takes one message and gives the new
--   state with the events that it sends.
--   Rib/Filter is filter.rs and Rib/FilterExpr filter_expr.rs, the rules that the operator writes.
-- - Mrt, for crates/rbmp-mrt/src: Mrt/Writer is writer.rs, Mrt/Reader reader.rs, Mrt/Types types.rs
--   and Mrt/Error error.rs. A source of bytes ends or breaks behind its bytes, a sink is a parameter.
-- - Enrichment, for crates/rbmp-enrichment/src: Vrp is vrp_cache.rs, Aspa is aspa.rs.
-- - Server, for crates/rbmp-server/src: Server/Collector has the loop of main.rs over the frames of
--   a collector, and the loop of bin/collector.rs that writes them, Server/Speaker the loop there over
--   the messages of a router.
-- A parsed message goes to the RIB manager, which keeps the sessions and the tables of routes.
--
-- A fallible function gives a `Result` with four outcomes: a value, an error, a panic, and `stuck`,
-- a loop of the model that ran out of fuel. Fuel is one more than the number of bytes left, and each
-- round of a loop consumes bytes; that no parser is stuck is part of the statements that it returns.
-- Bytes are numbers, and widths that wrap are written out.
--
-- Parameters: `Buf` and `BufMut` (crate bytes), `Ipnet` (crate ipnet), `Env` (chrono, lossy
-- UTF-8), `Clock` and `Chrono` (chrono), `Parsers` (ipnet, std, pest), `Display` (texts that std,
-- ipnet and hex make), `RmpSerde` (crate rmp_serde) and `AsyncWrite` (crate tokio), each with the
-- documented behaviour that is used; `Env` also says for how many elements memory can be reserved.
-- The decoders of the families beyond unicast, labelled and VPN are an interface of the attribute
-- parser, which says of them only that they leave routes of the plain families alone; they may
-- fail or panic. The attribute parser is a parameter of the UPDATE parser, and the filter engines
-- are one of the manager, so that what is said of these holds for every implementation.
--
-- Not modelled: the address families beyond unicast, labelled and VPN, the grammar of filter
-- expressions and the Roto engine, the RTR client, the rest of the servers, storage and message
-- sinks, which are input and output or are left for later; random ids and times of events;
-- concurrent access, which the program serialises by locks.
pub mod Base
pub mod Core
pub mod Enrichment
pub mod Mrt
pub mod Rib
pub mod Server
