-- ===== src/Lib.antt =====
-- Blockcore Hub and Gateway. A hub is a process that users run; it connects to gateways and to other hubs
-- (src/Blockcore.Hub.Networking, in C#) and serves the client of src/Blockcore.Hub/ClientApp, an Angular
-- application in TypeScript. This development models the client, and of the networking code the dispatch of
-- messages and their form as bytes, the connections of the gateway and the thread of each, the link of a hub to it,
-- what a hub knows of the others and tells its client, and the documents that it stores.
--
-- The parts of the networking code, with paths from src/Blockcore.Hub.Networking:
--   Dispatch       HubMessageProcessing.cs (GatewayMessageProcessing.cs is the same code) and MessageMaps.cs: handlers are
--                  registered for commands and called.
--   HubNode        Entities/HubInfo.cs: what a hub knows of another one and tells of itself (Updating), and
--                  FindReachableEndpoint of Managers/HubManager.cs (Reaching, Answering, Searching), and the
--                  Handlers/HubHandlers/AckMessageHandler.cs that answers it (Acking, Acknowledged), on both sides of the
--                  wire (Meeting, Heard, Met, Publishing).
--   Relay          Handlers/HubHandlers/InfoMessageHandler.cs and NotificationMessageHandler.cs with the events that
--                  Managers/HubManager.cs forwards, and Peers, which receives them.
--   GatewayLink    the loop of Managers/HubManager.cs that connects to the gateway, ConnectGateway, DisconnectedGateway
--                  and the keep-alive threads (Once, Retrying).
--   Serializer     MessageSerializer.cs and HeaderInfo.cs: messages as bytes, from streams and arrays (Framing, Slices,
--                  Consuming), and ListenTCP of Managers/HubManager.cs, which dispatches them (Listening).
--   Asking         a request to connect: ConnectToClient, the updates of connections that lead to it,
--                  Handlers/GatewayHandlers/ReqMessageGatewayHandler.cs and
--                  Handlers/HubHandlers/ReqMessageHandler.cs (Recipient).
--   HubBroadcast   Hubs/WebSocketHub.cs and Handlers/GatewayHandlers/BroadcastMessageGatewayHandler.cs (Spreading).
--   Worker         the loop in TcpWorker of Managers/GatewayManager.cs that serves a client, on Serializer, Dispatch and
--                  the handlers of the gateway (Knowing, Ending, Endless).
--   Overlap        the threads of the gateway on GatewayHandlers/InfoMessageGatewayHandler.cs, as steps (Counting, Bounds,
--                  Apart, Twice).
--   Departure      what Gateway sends by TCP, as Relay of another hub reads it (Inboxes, Followed).
--   Arrival        the same for a hub that joins (Enrolled, Listed).
--   Storage        DiskStorage.cs and IDocument.cs of src/Blockcore.Hub.Storage: documents on a disk (Files, Loading,
--                  Many). It stands apart from the others.
--   Gateway        ConnectionManagerBase.cs and Managers/GatewayManager.cs: connections, broadcasts, disconnection;
--                  and Handlers/GatewayHandlers/InfoMessageGatewayHandler.cs (Joining, Told). Writing has the same with
--                  writes that fail, which Worker stands on; the other parts stand on the one without (Written).
--
-- The parts of the client, with paths from src/Blockcore.Hub/ClientApp/src/app:
--   Peers          services/peer.service.ts: the list of peers, which follows the events of the hub.
--   HubConnection  services/hub.service.ts: the connection to the hub, its retry, its events.
--   Broadcasts     messages/messages.component.ts and hubs/hubs.component.ts, which use HubConnection, and
--                  the visits of the latter (Visits).
--   Api            services/api.service.ts: downloads from the indexer and their errors (Download), and the url of
--                  each request (Requests).
--   LinkHeader     parseLinkHeader of services/api.service.ts.
--   Paging         the lists of explorer/blocks, explorer/block and explorer/address that grow as the user
--                  scrolls: updateBlocks, updateTransactions and onScroll, and chains that are chosen (Chains) while
--                  requests are under way (Interleaved, Accounted). They use LinkHeader.
--   DetailPages    the parameters of explorer/transaction and explorer/address, the latter on Paging.
--   BlockPage      the lookups and the keys of explorer/block.
--   Explorer       explorer/explorer.component.ts: two polls of the indexer, on Api and Js.Sort.
--   Setup          services/setup.service.ts and loadSetup: the choice of a chain.
--   Network        network/network.component.ts: the peers of the node in groups.
--   Search         search/search.component.ts, with parseInt in Js.Number.
--   Ticker         ticker/ticker.component.ts: prices under configured paths.
--   HubSelection   setup/setup.component.ts: the choice of a hub.
--   ScrollEvents   shared/scroll.directive.ts: its debouncing, its events, and throttle.
--   ErrorPanel     error/error.component.ts: what is shown of an error.
--   Theme          footer/footer.component.ts: the dark mode.
--   Routes         the table of app.module.ts and the urls that search, explorer/block and home navigate to.
--   Client         app.component.ts, shared/loading.resolver.ts, nav-menu and services/applicationstate.service.ts: a
--                  visit of the client as a sequence of urls, on Routes and Setup.
--   FileTree       the trees of gateway/gateway.component.ts and requests/requests.component.ts, with their data.
--   IdentityForm   the form of identity/identity.component.ts.
--   Dashboard      the cards and lists of dashboard/dashboard.component.ts and apps/apps.component.ts.
--   Pipes          the pipes of shared/, but for the libraries that they call.
-- Js holds what these use of the language: arrays (splice, assignment), the stable sort, the values of JSON,
-- strings as lists of UTF-16 code units with the methods that the client calls, and numbers in decimal. Common
-- passes the library's names on and adds tests and lists on the native numbers.
--
-- How the code is read. A component is a record of the fields that its modelled methods read or write, and a method
-- is a function on that record. A method that awaits is one function for each stretch between two awaits; `Step`
-- relations say which stretches, answers and timeouts may follow each other, and `Reach` is their closure.
-- Answers of the network are arguments (or functions of the url), timeouts run in any order unless the source gives
-- them one delay. An exception is a result: an `Option` or a `Result` beside the state that it leaves. Strings that
-- are only compared are native strings, those that are taken apart are `Text`. Numbers from JSON that are heights or
-- counts are natural numbers. Output to the console and to logs is left out.
--
-- Fuel. `decimal_from` of Js.Number has one more than the number, which has fewer digits than that. `serve` of Worker
-- counts the rounds of its loop; how many are enough is a theorem of Worker.Ending. The loop of HubNode.Reaching over the
-- internal addresses, which may grow meanwhile, counts the addresses that it tries; how many are enough is a theorem of
-- HubNode.Searching. `listen_tcp` of Serializer runs as
-- many rounds as it is told. All else is structural recursion.
--
-- Parameters: what fetch gives, the handlers of messages, the indexer of a search, the rounding of a whole
-- number to a double, the sign of the number that the language makes of a ticker's value, the text that it makes
-- of an error's code; of Angular the router (it takes the first route that fits), the flattener of a tree (a row
-- for each node, its children after it) and the validators of a form; of the pipes the floating-point numbers
-- and the dates; of .NET the parsing and printing of endpoints, addresses and names of an enumeration, the paths
-- and the JSON of documents; which writes to a socket fail; in ConnectGateway how each attempt goes;
-- MessagePack; in FindReachableEndpoint the state of the connection at each look and the acknowledgements and
-- internal addresses that come in during each sleep, and in Met which Acks and which answers get through, and
-- when.
--
-- Not modelled: the SignalR client (a library; a copy of it lies in src/Blockcore.Hub/wwwroot/js) but for the
-- steps that it can take; Angular and its templates; pages without behaviour of their own; of the C# code the
-- start of the hub manager but for its loop, its sockets, the commands of the client but its broadcasts, the
-- handlers that only write to a log, the listing of the stored documents, the hosts, and what else the threads
-- share. Outside Gateway.Writing and Worker, writes to sockets are taken to succeed, and datagrams are taken to be sent
-- everywhere. Of a hub that is searched for, only the list of internal addresses changes during the search. Pages whose
-- updates throw where the service has no base url are followed in Paging.Interleaved only.
pub mod Common
pub mod Js
pub mod Peers
pub mod HubConnection
pub mod Api
pub mod LinkHeader
pub mod Paging
pub mod Explorer
pub mod Setup
pub mod BlockPage
pub mod Search
pub mod Network
pub mod HubSelection
pub mod Theme
pub mod ScrollEvents
pub mod Ticker
pub mod DetailPages
pub mod Broadcasts
pub mod Dispatch
pub mod Gateway
pub mod ErrorPanel
pub mod Routes
pub mod Client
pub mod FileTree
pub mod IdentityForm
pub mod Dashboard
pub mod Pipes
pub mod HubNode
pub mod Relay
pub mod Departure
pub mod GatewayLink
pub mod Asking
pub mod Serializer
pub mod HubBroadcast
pub mod Worker
pub mod Arrival
pub mod Overlap
pub mod Storage
