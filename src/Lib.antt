-- ===== src/Lib.antt =====
-- A model of the chat server (Go) and its correctness theorems.
--
-- The server keeps users, friendships, conversations, groups and messages in MySQL (through gorm),
-- and idempotency keys and caches in Redis. A request comes in over HTTP (internal/handler) or over a
-- WebSocket (internal/ws/client.go), is answered by a service (internal/service), and the services
-- work on the tables by the functions of internal/dao and on Redis by those of internal/redis.
--
-- Which file models which part:
--   Common/*: lists, texts, decimal numbers, sorting and maps over native numbers, as the Go library
--     has them (sort.Slice, strings.TrimSpace, strconv.ParseUint, strings.Split).
--   Errors: pkg/errs, and results that may be errors. Model: the tables of internal/model.
--   Platform/*: what the server runs on. An action is a function from the world (the rows, Redis, the
--     number of calls made so far) to a result and the next world. Platform is a parameter of the
--     model: it says which statement or command fails, what the clock and the random ids are, and how
--     JSON texts look; the theorems hold for each choice. Platform/Sql has statements and transactions
--     (a rollback after any error), Platform/Redis has internal/redis/redis.go with expiry.
--     Platform/Effects, Inversion and After carry the reasoning about actions.
--   Dao/*: internal/dao. Conversation, State, Group, Message, User and Friend have one definition per
--     function (GetOrCreateC2CTx is get_or_create_c2c_tx); what a statement does to the rows is a
--     function of its own (set_last_msg for the update in UpdateLastMsgTx). Peer has the keys of
--     conversations between two users. Quiet and Pair are proofs.
--   Service/Chat: HandleSend and HandleRead of internal/service/chat; Overlap has sends that run side by
--     side. Service/History and Service/ConversationList: the pages of messages and the list of
--     conversations of internal/service/conversation. Service/Group: group.go there. Service/Friend:
--     internal/service/friend, with the applications as a state machine over any sequence of calls;
--     Race has the writes of requests that run side by side.
--   Service/Auth: refresh tokens, sessions and refused access tokens of internal/service/auth; the
--     signing of a token is a parameter, and Calls has the operations as steps. Service/User:
--     registration, login and the search for users of internal/service/user, with bcrypt as a
--     parameter. Service/Email: internal/service/email, with SMTP as a parameter. Service/Search:
--     SearchGroups. Service/Reads and Service/Writes say which operations change rows, and when.
--   Http/*: internal/handler (Auth, Conversation, Friend), internal/middleware and the routes of
--     internal/router (Router). A request is a value of Router.Request, with what its handler reads of it;
--     serve answers it. Refusals, Access, Lockout and Register are proofs.
--   Bus: internal/bus/kafka.go, the consumer loop as a function of what its fetches return, and the
--     calls of Run, Close and Publish one after the other; the checks of NewKafka and InitKafka.
--   Ws/Hub: internal/ws/hub.go as a step relation on the registered connections, their send channels
--     and the queues of the hub; a send on a closed channel is a panic, and a case of Run is one step.
--     Hub/Overflow adds Broadcast and HandleEvent, with the goroutines that Broadcast starts when its
--     queue is full. Hub/Delivery, Sets and Reach say whom a broadcast reaches.
--     Ws/Frame and Ws/Dispatch: internal/ws/frame.go and the dispatch of frames in client.go; how frames
--     look as JSON is a parameter. Ws/Pumps: internal/ws/handler.go and the two pumps of client.go, on
--     what the connection returns.
--   Examples/*: runs on a small database at which the theorems apply.
--
-- Conventions. Texts are lists of code points. Ids and counters are natural numbers; the unread
-- counter and the member count keep their 32 bits (an increment out of range is MySQL's error 1264, a
-- conversion is taken modulo 2^32). A negative limit reads like 0, as the code treats both alike. A
-- time is a number of nanoseconds. Loops are structural; the wait of HandleSend has its three tries.
-- What a query leaves unordered comes in the order of insertion. Statements compare ids of conversations
-- and messages exactly; the collation of the tables (docker-compose.yml) takes letters of either case for
-- the same, so the model holds for clients that send an id as the server has issued it, in lower case.
-- Only the searches, and the addresses of users, are compared by a collation, which is a parameter.
--
-- Not modelled: what gin does with a path and a body (a body is a value, or one that was refused);
-- configuration, logging and start-up, which are I/O and glue; the connection of a WebSocket, whose
-- results are arguments. What other requests do between the statements of one request is modelled for
-- the handling of applications (Service/Friend/Race) and for sends of one message
-- (Service/Chat/Overlap); elsewhere a request runs alone, and a sequence of requests is modelled.
pub mod Common
pub mod Errors
pub mod Model
pub mod Platform
pub mod Dao
pub mod Service
pub mod Bus
pub mod Ws
pub mod Http
pub mod Examples
