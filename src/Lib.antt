-- ===== src/Lib.antt =====
-- A model of gnyproxy, a pair of HTTP proxies that speak a compact binary format, GNY, between them.
--
-- The parts, and how they interact. A message (HttpMessage: http_message.h, http_message.cpp) is
-- filled by a source and drained by a sink, and passes the states header, entity, footer and done.
-- Sources and sinks exist for the GNY format (MessageSourceGny: message_source_gny.cpp;
-- MessageSinkGny: message_sink_gny.cpp) and for HTTP/1.1 (MessageSource11: message_source_11.cpp;
-- MessageSink11: message_sink_11.cpp). Both use the tables of verbs and header names (Http: http.h,
-- http.cpp) and the text functions (Common: common.cpp). The proxy hands messages on from one to
-- another and makes its own error messages (HttpProxy: http_proxy.cpp). Several virtual connections
-- share a socket (Multiconn: multiconn.h, multiconn.cpp, and the class Connection of connection.h).
-- Codec has the interfaces of connection.h for readers and writers, which the four classes fill. The
-- client's side of the proxy (HttpProxy/Linker: ALinker of http_proxy.cpp) reads requests and gives
-- them to the requester (Requester and ReqLinker: requester.h, requester.cpp, with identity.h and
-- identity.cpp), or becomes one end of a tunnel (HttpProxy/Tunnel). Server (server.h, server.cpp) and
-- Client (client.h, client.cpp) run the select loops over connections; Select has what they share.
-- HttpServer (http_server.h, http_server.cpp) is the side of a server that makes responses itself; the
-- class MyHttpServer of test_http_server.cpp is one of its generators (TestHttpServer), over a file
-- system that is a parameter, and MyRequester of request_gen.cpp is one of the requester's (RequestGen).
--
-- Conventions. A byte is a number below 256, a std::string a list of them. A failed assert and a
-- read outside an array are faults (Prelude/Faults). A message that a source or a sink points to is
-- a field of its record, as it stands when a method is called. A call on a socket has its outcome
-- from a parameter (Socket; Calls in Multiconn). Functions of the C library are in CLibrary and, for
-- characters and strcasecmp, in Common and Http; the C locale is assumed.
--
-- GnyWire states the GNY format as a grammar of whole messages. MessageSourceGny/Spec is a machine
-- that takes the format byte by byte and keeps no positions; MessageSourceGny/Config relates the
-- reader's positions to it, Refine and Rounds relate the steps, Closing the end of a call, Reads a
-- whole call, and Pieces several calls. Decode relates the machine to the grammar, and
-- MessageSinkGny/Encode the writer; RoundTrip puts both together, and Http11 the two HTTP/1.1
-- classes. HttpProxy/Handed describes what dump_message hands on, and HttpProxy/Linker/Retires how
-- transactions leave the queue of a link, both apart from the code. Tests holds runs on concrete inputs.
--
-- Interfaces are records: Services in Select (the class Connection), Exchange in ReqLinker (the class
-- RequestGenerator; HttpProxy/Copier fills it with MessageCopier), Wrapping in Requester (the
-- functions that wrap a connection; the identity wrapper fills it, and IsWrapping has the laws), Proxy in
-- HttpProxy/Linker (the class HttpProxy), and Generation in HttpServer (the class EntityGenerator).
-- Objects that several others point to, messages and linkers, are found by their addresses, and an
-- address that is not in use is an argument where the code says new. PointerSet has std::set for pointers.
--
-- Fuel. The binary search has one unit more than the table's size, and the loop over chunks as much
-- as there are bytes. The loop of a select loop that serves the connections has one unit more than
-- there are connections, and the loop that reads a file 1025, as it stops at 1024 bytes. All are
-- proved to be enough: that of the search on sorted tables, and on the table of verbs, which is not
-- sorted. All other loops are structural, also those over the 256 numbers of a multiplexed
-- connection.
--
-- Not modelled: the constructor of HttpProxy and the creator functions, which pass arguments on, the
-- destructors of Client, Server, Multiconn, EntityLinker and MyHttpServer, mime_type, which runs another
-- program, and all main functions. What Connector::write and Connector::read return is not defined
-- by the code. What is printed for a person to read is left out. Integers of C++ that are positions in a
-- string are not bounded.
pub mod Prelude
pub mod Common
pub mod Http
pub mod HttpMessage
pub mod Socket
pub mod MessageSinkGny
pub mod MessageSourceGny
pub mod GnyWire
pub mod RoundTrip
pub mod HttpProxy
pub mod CLibrary
pub mod MessageSink11
pub mod MessageSource11
pub mod Http11
pub mod Multiconn
pub mod Tests
pub mod Select
pub mod Client
pub mod Server
pub mod Codec
pub mod PointerSet
pub mod ReqLinker
pub mod Requester
pub mod HttpServer
pub mod TestHttpServer
pub mod RequestGen
