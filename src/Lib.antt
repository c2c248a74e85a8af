-- ===== src/Lib.antt =====
-- The AImeath desktop server: its games, the interface that runs a game in a window, and the
-- WebSocket sessions that connect windows to clients.
--
-- The program. A client opens a WebSocket for a window. A session reads the name of an
-- application from the first message, creates the application from a loaded module, and then
-- passes messages to it and its replies back. A session whose connection is lost stashes its
-- application in the registry under the name of the window, and a later session of that window
-- takes it over. Applications are asynchronous (chat, terminal) or answer each message with an
-- array of values (the games). The four grid games share the interface of game_api.hpp.
--
-- What models what. Paths are those of the repository.
-- - Game/Direction, Game/Grid, Game/Text: desktop/app/shared/game/include/direction.hpp, and the
--   boards that are kept as one vector and printed row by row.
-- - Game/Api: game_base.hpp and game_api.hpp there. `process` is app_process, `serve` its branches,
--   `Ctx` is _GameAppCtx, `GameClass` is what the interface uses of class Game; a game fills
--   Game/Api/Sessions with the laws that it keeps.
-- - Snake: desktop/app/snake/backend. Snake.antt has the classes Snake, Board and SnakeGame;
--   Screen has renderGrid, getState and the instance of the interface.
-- - Pacman: desktop/app/pacman/backend, in the same way.
-- - Gomoku: desktop/app/gomoku/backend, in the same way.
-- - Go: desktop/app/go/backend. Go.antt has class Board with its searches and captures, Go/Score
--   the marks, the territory and the score, Go/Game class GoGame with its ko, passes and states.
--   Go/Count and Go/Group are about the searches, Go/Alive about liberties, Go/Game/Whole about all
--   moves from a new game.
-- - Chat: desktop/app/chat/backend and module/agent/src/agent_chat_participant.cpp. Chat.antt has
--   ChatApp, push_output up to the end of a stream, and processNext; Room has the handling of
--   messages, Text and Command the texts and commands, Input the functions of the module,
--   Participant what AgentChatParticipant gives to the room, Events the steps of all of them.
--   Schedule is the order in which the agents are asked, as a list.
-- - Server/Registry: SessionManager in module/access/src/ws_server.cpp and its header.
-- - Server/Session: class Session there. Session.antt has the write queue, closing and the
--   heartbeat, Session/Input has what a message from the client does, Session/Output what other
--   threads call, Session/Routing the first message.
-- - Server/Listener: class Listener there.
-- - Core/Queue, Core/Pool: MessageQueue and ThreadPool in module/core.
-- - Common: shared names, integers, JSON values, dictionaries, and outcomes of code that may
--   fault or not return.
--
-- How it is modelled. State is passed explicitly: a method is a function of the state before to
-- the state after. `Outcome` says whether code returned a value (`ok`), met undefined behaviour
-- (`undefined`: an index out of range, `front` of an empty container, division by zero, a null
-- pointer given to a module) or used up its fuel (`unfinished`). The handlers of a session run on
-- a strand, so each is one step, and the registry holds its mutex through each operation, so
-- each is one step as well.
--
-- Integers. Coordinates and actions are integers with a sign. Sides are natural numbers, since the
-- interface builds no other game. The interface sets no limit on the sides: the product of two
-- sides, which gomoku and pacman compute in `int` for their boards, is undefined beyond
-- 2147483647. An index on a board whose product is in that range is in it as well. The
-- additions to scores and counters are not bounded.
-- The conversion of a 64-bit value in a message to `int` keeps its wrap-around.
--
-- The room of the chat. An agent answers on a thread of its own; a call of its callbacks is one
-- step of the room, and so is an input of the user, so that interleavings inside such a call are
-- outside the model. Which pieces and which answers an agent gives is left to the events.
--
-- The methods of the queue hold its mutex; an access to an atomic counter of the pool is one step.
--
-- Fuel. The loops that draw random cells (generateFood, generateBeans) run on fuel, since they
-- end only if std::rand gives a cell that is free: theorems about them say which draws are
-- enough. The loop of countDir has as much fuel as the side of the board plus one. The searches of
-- Go have one more than the 441 cells of a board with its border, since no cell is marked twice.
-- processNext has the number of the agents plus two, since it calls itself only to pass over an
-- agent. All other loops are structural.
--
-- Parameters. std::rand is a function of the number of calls made. The parser and the printer of
-- boost::json, and its conversion of numbers, are the record `Boost`; a text that the code
-- prints and parses again is kept as its value. The functions of a loaded module are the record
-- `Module`. Whether a weak reference still has an open session is the record `Life`.
--
-- Not modelled. The tools by which an agent drives other applications (executeTool), the agent
-- server, the requests to language models, the terminal, the file manager, and the core services
-- (timer, event bus, configuration) are outside the model. Sockets, HTTP, TLS and the operating
-- system are used through libraries. The log, memory management and the order of the names in a
-- std::map are left out.
pub mod Common
pub mod Game
pub mod Snake
pub mod Pacman
pub mod Gomoku
pub mod Go
pub mod Chat
pub mod Server
pub mod Core
