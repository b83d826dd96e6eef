-- ===== src/Lib.antt =====
-- A model of the replicated bank over UDP in T1: servers of which one is the primary and the
-- others are backups, and clients that send it requests to move money.
--
-- The parts of the program. A client finds the primary by a broadcast (DISCOVERY), which registers
-- it with 1000, and sends requests (TRANSACTION_REQ) with a destination, an amount and a sequence
-- number. The primary checks and executes a request, sends the accounts it has changed to every
-- backup (STATE_UPDATE) and answers the client (TRANSACTION_ACK). A new backup registers
-- (REGISTER_BACKUP) and is sent the clients and the history (ADD_CLIENT_UPDATE,
-- ADD_HISTORY_ENTRY). The primary sends heartbeats; a backup that misses them starts an election,
-- in which a server gives up when it hears a higher id, and the winner is announced (ELECTION,
-- ELECTION_ANSWER, NEW_PRIMARY_ANNOUNCEMENT).
--
-- Which file models which part:
--   Common: helpers; Common/Word is `int` and `uint32_t`.
--   Input: how the standard library reads words and numbers, for validateInput and getValidatedPort.
--     Digits is about numbers as std::to_string writes them, Lines about words and spaces.
--   Protocol: the structures of T1/include/utils.h and the class of T1/include/ClientDTO.h.
--     Protocol/CharArray: strncpy into a `char[INET_ADDRSTRLEN]` and reading it back.
--   Platform: what the program takes from the machine and the system: `float`, the byte order,
--     inet_ntop and inet_pton, the members of a union, and when a vector reallocates. They are a
--     parameter, and their documented laws are hypotheses; Platform/Instance has an instance.
--   Server/State, Server/Clients: the fields of Server (T1/include/Server.h), and findClient.
--   Server/Transactions: validateTransaction, executeTransaction, updateAndLogTransaction,
--     setupDuplicateRequestLog, handleTransactionLogic, processTransaction, propagateTransaction
--     (T1/server/Server.cpp) and handleTransactionRequest (T1/transactions/transactionServer.cpp).
--     Bank is the abstract specification; Settle, Process, Contract, Cases, Retry, Reasons and
--     Money are about the branches, the reply, the sequence numbers, the statuses and the balances.
--   Server/Lock: reader_lock, reader_unlock, writer_lock, writer_unlock (T1/server/Server.cpp) as
--     steps of threads, with the notifications of the two condition variables.
--   Server/Registration: wasClientAdded, addClient, propagateClientAddition, registerBackup,
--     handleClientUpdate, handleStateUpdate, handleHistoryEntry (T1/server/Server.cpp) and
--     handleDiscoveryPacket (T1/discovery/discoveryServer.cpp).
--   Server/Solvency: the money that clients hold. Server/Once: copies of a request.
--     Server/Negative: requests with negative amounts.
--   Server/Election: heartbeats, the election and the change of roles (T1/server/Server.cpp).
--   Server/Dispatch: the switch of Server::init, and the stages of the threads.
--   Server/Init: Server::init as a whole, and main (T1/server/main.cpp). Loop is its main loop.
--   Replication: what a primary sends against what a backup does with it. Run is a primary that
--     serves any inputs and a backup that takes what is delivered to it; Failover is the backup
--     that becomes primary then; Rejoin is a backup that follows the new primary; Startup is a
--     server that starts while there is a primary, and Init is Server::init of that server;
--     Lost is a backup that has missed packets.
--   Election: the election and the monitor over the packets handled while a thread sleeps.
--     Election/System: many servers on a network, as a step relation. Honest, Handlers and Stages
--     are about what one server sends and does; Beaten, Announced and SplitBrain are about the
--     states that the network reaches, Duties and Alone about the threads of its servers.
--   Client: executeRequestWithRetries, listenForAnnouncements, discoverServer
--     (T1/client/Client.cpp), sendRequestPacket, receiveResponse
--     (T1/transactions/transactionClient.cpp) and processCommand (T1/client/clientInterface.cpp).
--     Commands is the line that a user types (validateInput in transactionClient.cpp); Listener is
--     the thread of listenForAnnouncements with its socket; Process is the whole process
--     (ClientInterface::start, T1/client/main.cpp).
--     Retries is the loop; Exchange is one request through the server and back; InStep is about
--     the two sides of the sequence number; Lossy is a command over a network that loses packets;
--     Notices is what processCommand prints.
--   Interface: the two threads of the client's interface, the queue between them and the handler of
--     SIGINT (T1/client/clientInterface.cpp, T1/client/main.cpp). Order is about the commands,
--     Wakes about the condition variable, Finish and Runs about the end of a session.
--   Sockets: the methods of ClientUDP and ServerUDP (T1/udp) and the system calls that they make;
--     Opening is the head of Server::init.
--   Discovery: run_discovery_service_client; Search: run_discovery_service_server (T1/discovery).
--   Server/Id: getIp. Server/Log: what ServerInterface prints (T1/server/serverInterface.cpp) and
--     printClients. Server/Printer: the thread of ServerInterface and its condition variable, as
--     steps. Ports: the port on the command line (T1/utils.cpp).
--   Tests: the theorems at concrete servers.
--
-- How the code is modelled. State is passed on explicitly: an operation takes a Server and returns
-- the one after it with the packets that it sends and the threads that it starts. `none` is
-- undefined behaviour, such as the use of a dangling iterator or reading an array of characters
-- past its end. An iterator is an index into the
-- list of clients. What the code does between taking and releasing a lock is one step. A thread is
-- cut where it sleeps or waits, and the main loop handles packets in between. `int` wraps at 32
-- bits, as compilers do it, although the overflow of a signed number is undefined in C++. A `float` is a type of the platform, whose arithmetic is exact on
-- integers up to 2 ^ 24; 16777 clients of 1000 each stay below that. The server's loops are
-- structural recursion over lists, so no fuel is needed. The fields that the constructor leaves as
-- they are in memory (current_role, primary_server_addr, primary_alive) are arguments of
-- `construct`.
--
-- The client's loop runs on the retries that are left, MAX_RETRIES at its start. What its sockets
-- receive is a function from the number of the round; a packet that cannot be sent counts as lost.
--
-- The threads of the lock and of the client's interface are step relations, without fuel; SIGINT
-- comes between their critical sections, not inside one. What a system call returns is an argument.
-- The loop of the server's discovery runs over the list of what it receives, and the list may end
-- before the loop does.
--
-- In Election/System any server may take any step at any time; a server that has failed takes none
-- until it starts again. What is sent stays on the network, and each packet may be received any
-- number of times, by the server that it is addressed to, or by all after a broadcast.
--
-- Not modelled: error messages of the sockets and of the server, the time of day, widths of
-- columns, and what getifaddrs and the system calls do, which are arguments. Outside Election/System
-- two servers do not share a step: what one sends another takes as a list of packets, and packets
-- that the network loses, doubles or reorders are those that a list of received packets lacks,
-- repeats or has in another order. The end of an election is one step, with the announcement that
-- it broadcasts. In Client/Process the first discovery may wait for ever, and its packet is kept
-- apart from the requests; what a new discovery in processCommand sends is left out. There the
-- commands come in the order of the queue, which Interface is about, and what a command meets on
-- the network is an argument. The sockets
-- of the client and of the server count as usable once they are created.
pub mod Client
pub mod Common
pub mod Discovery
pub mod Election
pub mod Input
pub mod Interface
pub mod Platform
pub mod Ports
pub mod Protocol
pub mod Replication
pub mod Server
pub mod Sockets
pub mod Tests
