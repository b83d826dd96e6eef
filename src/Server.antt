-- ===== src/Server.antt =====
-- The class Server (T1/server/Server.cpp, T1/include/Server.h) with the functions that its main
-- loop calls in T1/transactions/transactionServer.cpp and T1/discovery/discoveryServer.cpp.
-- A method is a function from the state to the new state, with the packets that it sends; the body
-- of a critical section is one step.
pub mod State
pub mod Clients
pub mod Transactions
pub mod Registration
pub mod Solvency
pub mod Election
pub mod Dispatch
pub mod Init
pub mod Once
pub mod Lock
pub mod Negative
pub mod Id
pub mod Log
pub mod Printer
