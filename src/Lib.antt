-- ===== src/Lib.antt =====
-- candy: a virtual private network. Clients log in at a WebSocket server, which relays messages
-- between them and hands out addresses, and connect to each other directly where they can.
--
-- Net is candy/src/core/net.h and net.cc. Net/Order: byteswap, ntoh and hton on integers of any
-- width, with the host's byte order as an argument. Net/Ip4: class IP4 as four bytes and its
-- operators. Net/Address and Net/Cidr: class Address, and Net/Text the text of an IP4;
-- Poco::Net::IPAddress is the parameter IpText, and a write past the array in fromPrefix is a
-- result of its own. Net/RoundTrip, Value, Prefix, Host, Walk and CidrLaws hold the theorems.
--
-- Message is candy/src/websocket/message.h and message.cc. Message/Kind and Layout give the kinds,
-- sizes and offsets of the packed structs, Message/Hash updateHash and check of Auth, ExptTun and
-- VMac over a buffer's bytes, with SHA-256 as a parameter, Message/Make the constructors.
-- Message/Signed holds the theorems.
--
-- Server is candy/src/websocket/server.h and server.cc. Server/State: WsCtx and WebSocketServer as
-- records; a context is named by a number, which stands for its pointer, and `live` says which
-- contexts exist. A handler takes a server to a server and to how it ended. Server/Routes is
-- updateSysRoute, Server/Sdwan setSdwan, whose calls of std::getline are in Base/Getline,
-- Server/Alloc the choice of a dynamic address, Server/Handlers the handlers of the kinds of
-- message, Server/Settings setPassword and setDHCP, Server/Serve handleMsg, one round of
-- handleWebsocket and its end. The threads of the connections are the steps of Server/Reach in any
-- order: one round is one step, as if no other thread ran meanwhile. A round with undefined
-- behaviour leaves the connection open with the server as it was then, which only adds steps, and
-- an exception of a send ends the connection also where it is a timeout, after which the program
-- goes on. The map of connections is an association list. The search for an address takes fuel;
-- three rounds are enough for every network with a prefix mask. Server/Registry gives what the
-- server promises, a registry of who owns which address. Server/Keeps, Logins, Reach, AllocLaws,
-- SecondLogin, Relay and Rules hold the theorems.
--
-- Peer is candy/src/peer/peer.h and peer.cc. Peer/State: class Peer as a record, what it sees of
-- its manager and of the world as the record World, updateState and resetState. Peer/Send: the
-- messages that it sends. Peer/Calls: tryConnecct, handlePubInfo, handleStunResponse, tick and
-- handleHeartbeatMessage. Times are seconds. AES-256-GCM with the peer's key and isLocalNetwork
-- are parameters. Peer/Invariant, Soundness, Edges and Timeout hold the theorems.
--
-- Tun is candy/src/tun/tun.h and tun.cc. Tun/Flows: parseInnerL4 and the table of the flows that
-- the gateway began. SysRouteEntry has three addresses. Tun/Packets: handleTunDevice and
-- handlePacket, as compiled with CANDY_NETSTACK; what they write and queue is a list of outputs,
-- and `userspace` is getUserspaceStack. Tun/Routes: handleSysRt. The loop that evicts the oldest
-- flows takes as much fuel as there are flows, and each round removes one. One call reads the
-- clock once. Tun/Bounded, Returns and Tunnel hold the theorems.
--
-- Manager is candy/src/peer/manager.h and manager.cc, and the messages of candy/src/peer/message.h
-- and message.cc. Manager/State: class PeerManager as a record, what it sees of the world as the
-- record World, and what it sends. Manager/Table: updateRtTable, with what sendRtMessage
-- announces; round trip times are integers without the limit of int32_t. Manager/Settings: the
-- setters. Manager/Send: sendPacket over a route or directly, sendPubInfo, sendStunRequest, and
-- the effects of a peer's calls. Manager/Queue: handlePeerQueue with its handlers, and tick.
-- Manager/Stun: handleStunResponse, where a read behind the datagram is a result of its own; its
-- loop takes fuel, of which 65536 is more than the greatest length that a response can state.
-- Manager/Messages and Receive: the messages of other clients, and poll. Manager/Calls: every call
-- as one step. A peer's effects take place when its call has ended. Manager/TableLaws, Soundness,
-- Invariant, Steps, Packets, OnlyPeers, StunLaws and Mapped hold the theorems.
--
-- Core is candy/src/core/message.h and class MsgQueue of candy/src/core/client.h and client.cc.
-- Core/Message: the messages between the threads; the bytes of a PubInfo are a record. Core/Queue:
-- read, write and clear, and the calls of all threads in the order of the queue's lock. Core/Fifo
-- holds the theorem.
--
-- WsClient is candy/src/websocket/client.h and client.cc. WsClient/State: class WebSocketClient as
-- a record, and its settings. WsClient/Send: the senders. WsClient/Handlers: the handlers of the
-- queue's messages and of the server's, where a read behind the message has no result.
-- WsClient/Loop: handleWsConn, with what the socket brings as an argument, connect, and run up to
-- the start of its threads. WsClient/Login, Offer, GivenAway, Peers, RouteTable and Overread hold
-- the theorems, which put client and server together.
--
-- Netstack is candy/src/netstack. Netstack/Stun: stunParse of stun.h. Netstack/Mux: the tables of
-- class UdpMux (udpmux.h, udpmux.cc), sendFromSource, demux, onSourceGone, reap and shutdown; what
-- goes to the one socket and what is injected for an inner source is a list of outputs. An inner
-- source is its key, as in SessionUdp. Netstack/Owners, Replies, and Index with its children hold
-- the theorems.
--
-- Netstack/Tcp is class SessionTcp of session_tcp.h and session_tcp.cc. Tcp/State: the session as
-- a record with the tasks that it has posted to either thread and a log of what it saw and did.
-- What lwIP and the socket answer is an argument of each call, as lists; where a list ends, lwIP
-- has no room and the socket blocks. Tcp/Stack: what runs on the NetStack thread, Tcp/Reactor:
-- what runs on the Reactor thread, Tcp/Calls: a call or a task as one step, in any order, as if
-- the other thread did not run meanwhile: a race within a call, as that between the comparison
-- with the high water mark and the pause of the reading, is not seen, and nothing is proved about
-- when reading goes on. Sizes are natural numbers, and only fetch_sub on backwardBytes wraps
-- around. The loop of tcp_recved takes as much fuel as there are bytes, and each round takes at
-- least one. Tcp/Induction, Forward, Arrival, Backward, Ends, Losses and Repeats hold the
-- theorems.
--
-- Netstack/Udp is class SessionUdp of session_udp.h and session_udp.cc: what a call posts, sends
-- or asks the stack for is a list of outputs. Netstack/Stack is class NetStack of netstack.h and
-- netstack.cc: handleInput, feedToLwip and output with the table of the peers, and what passes
-- between sessions and UdpMux. Stack/Sessions: onAccept, onUdpRecv, the calls that a UDP session
-- makes, reapIdleUdpSessions, a round of loop, and teardownStack. Times are seconds. Stack/Known,
-- Peers, Live, Flowing and Converged hold the theorems.
--
-- Config is struct arguments of candy-cli/src/config.h and config.cc. Config/File: fileToKvMap,
-- with Poco::trimLeft and Poco::trim as the parameter Poco. Config/Settings: the settings with
-- their defaults and parseFile, where the exception of std::stoi, at which the program exits, is
-- no result. Config/Lines holds the theorem.
--
-- Base holds what the parts share, and Examples the theorems at concrete inputs.
--
-- Not modelled: logging, locks, sockets, URIs and HTTP (calls of libraries), the command line with
-- its copy of argparse, the server's setWebSocket, the settings and threads of
-- candy/src/core/client.cc, the devices and settings of the tun, and of the network stack the
-- reactor, the sockets, the threads and the set-up of lwIP.
pub mod Base
pub mod Net
pub mod Message
pub mod Server
pub mod Peer
pub mod Tun
pub mod Manager
pub mod Netstack
pub mod Config
pub mod Core
pub mod WsClient
pub mod Examples
