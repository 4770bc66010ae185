-- ===== src/Lib.antt =====
-- A verification library of the chat rooms application: the wire protocol, the server's management of
-- users, groups and sessions, the TCP server under it, and the client.
--
-- The program. Clients send frames over TCP (NetworkProtocol.h). The TCP server (ServerNet/) hands each
-- received buffer and each disconnection to callbacks of ServerMng/ServerManager.c, which decodes the
-- frame, finds the action of its opcode and runs it on two managers: ServerMng/UserManager.c, which
-- keeps the users by name and by connection, and ServerMng/GroupManager.c, which keeps the groups by
-- name, each with a multicast endpoint and a count of its members. ServerMng/User.c and
-- ServerMng/Group.c are the objects of the two managers. The containers (db/) are a binary archive. The
-- client (Client/, ClientNet/) offers a menu by the state of its session, sends a request, waits for
-- the answer, and opens a window for each group whose endpoint it gets.
--
-- The files.
--   Base, Base/*: names of the libraries passed on, Boolean tests, lists over the native numbers, bytes
--     and C strings, integers.
--   Protocol, Protocol/Opcode, Protocol/Status: NetworkProtocol.h. `serialize` is SerializeChatMessage,
--     `deserialize` is DeserializeChatMessage. Whether plain `char` is signed is an argument.
--     Protocol/Length, RoundTrip, Errors hold the proofs.
--   HashMap, HashMap/Assoc: the interface of db/HashMap.h as a record of operations and of the behaviour
--     that the header documents, and an instance of it.
--   DList, DList/Plain: the same for db/gen_dlist.h.
--   Heap: objects behind addresses, since both maps of the user manager point to the same objects.
--   Keys: the hash and equality functions that the managers pass to HashMap_Create (the end of
--     ServerMng/ServerManager.c and of ServerMng/UserManager.c), and the record `Library` of all that
--     the server takes from elsewhere: the containers, inet_pton, inet_ntop, the digits of %u.
--   User, User/Groups: ServerMng/User.c, and the list of groups of a user as a list of names.
--   UserManager: ServerMng/UserManager.c; `add_user` is UserManager_AddUser, and so on. UserManager/View
--     and UserManager/Invariant say when a manager is well formed, Registration, Sessions and Membership
--     hold the proofs of its operations, Members counts the users of a group, and UserManager/Listing
--     has UserManager_FormatAllUsersAndGroups.
--   Group, GroupManager: ServerMng/Group.c and ServerMng/GroupManager.c. GroupManager/View and
--     GroupManager/Table say when a manager is well formed and read it as a table from names to groups,
--     GroupManager/Add, Counts and Endpoint hold the proofs of its operations, and
--     GroupManager/Listing has the list of the groups' names.
--   ServerManager, ServerManager/GroupActions, ServerManager/Names: ServerMng/ServerManager.c;
--     `action_login` is ServerManager_ActionLogin, and so on. An action returns the arguments that it
--     passes to ServerManager_SendOrLog, and ServerManager/Sending has `send_message`, the frame that
--     ServerManager_SendMessage makes of them. ServerManager/Counted says when a server is well formed,
--     Leaving moves the counts of the groups, Accounts, Sessions, Membership, Endpoint, Joining and Creating hold
--     the proofs of the actions, Lists has the two list actions, Receiving has `callback_recv`, which is
--     ServerManagerCallbackRecv from the received bytes on, and Runs composes it with disconnections
--     into sequences in any order.
--   TcpServer: ServerNet/. TcpServer has the records of connections, the events (what the threads do to
--     the world: calls of the callbacks, closing of descriptors) and the Process functions of
--     TcpServerController.c. TcpServer/Handler is TcpConnectionHandler.c: `io_round` is one round of
--     ClientHandlerIOLoop, whose calls of select and recv are answered by arguments. Handler/Serving,
--     Loop and Whole describe ServiceExistingConnections, Handler/Invariant and Rounds hold the
--     book-keeping of the descriptors. TcpServer/Acceptor is TcpConnectionAcceptor.c, with
--     `accept_round` for a round of its loop, and TcpServer/Accepting its proofs. TcpServer/Controller
--     is the life cycle of TcpServerController.c; each call is one step, since it holds the lock, and
--     takes what the threads still do before they are joined as an argument. Controller/Lifecycle and
--     Starting hold the proofs, Controller/Runs lets the owner's calls and the rounds of the threads
--     come in any order, Controller/Ends is about stopping and destroying.
--   Client: Client/Menu is Client/Menu.c, with what Menu_Parse makes of a line in Menu/Choosing;
--     Client/Controller is ClientNet/ClientController.c; Client/Requests has the payloads that
--     Client/ClientApp.c packs and the endpoint that it parses, read against the server's side in
--     Requests/Readable and Requests/Endpoint; Client/Printing is PrintResponse; Client/App has
--     ExchangeMessage, App/Handlers the handlers, and App/Run the loop of ClientApp_Run. The input is the bytes
--     left on stdin, and what the system answers in a round is a record `Network`. App/Exchanges,
--     Sessions and Ending hold the proofs. The loop is over a record `Windows` of operations on the
--     windows; Client/GroupWindows is Client/GroupWindows.c, with the
--     proofs in GroupWindows/Closing, GroupWindows/Opening and, over a run of calls, GroupWindows/Ledger.
--   Tests, Tests/*, Protocol/Tests: the theorems applied to a small run and to small messages.
--
-- Conventions. A pointer to an object is an address of a heap whose addresses are never used again; a
-- read of a dead object, or past the end of an array, is `none`, so a theorem that an operation returns
-- `some` says that it does neither. A C string is the bytes before its NUL. Sizes are natural numbers
-- with the wrap-around of the source written out. A failing allocation is a field of `Memory`, or the
-- behaviour of a container. The two hypotheses on memory are `Pushes` (ListPushTail finds memory, since
-- User.c does not look at its result) and, for counts of 64 bits, that fewer than 2^64 users have been
-- made. Every loop runs over a list but that of ClientApp_Run, which is given a number of rounds: each
-- round takes at least one byte of the input, so more rounds than there are bytes are enough.
--
-- Not modelled: the programs in the windows of the client and their message queue, which copy between
-- a terminal, a socket and a queue; the main programs and logging. The containers are known only by the behaviour that
-- their headers document, and by one that UserManager.c relies on: HashMap_Find leaves NULL after a
-- miss. The memory order of the atomics of ServerNet/ is not modelled: the rounds of the threads are
-- steps, and the calls of the owner are too.
pub mod Base
pub mod Protocol
pub mod HashMap
pub mod DList
pub mod Heap
pub mod Keys
pub mod User
pub mod UserManager
pub mod Group
pub mod GroupManager
pub mod ServerManager
pub mod TcpServer
pub mod Client
pub mod Tests
