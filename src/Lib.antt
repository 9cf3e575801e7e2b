-- ===== src/Lib.antt =====
-- The OWOP server: a shared drawing board of worlds, divided into chunks of 16 by 16 pixels. Clients
-- connect over web sockets, join a world by its name, ask for chunks, put pixels, move and talk. A world
-- keeps the chunks in use in memory, announces changes to its clients in one message per round of a timer,
-- and stores chunks, properties and protections in the files of a directory of its own.
--
-- The parts, and the files that model them:
-- - limiter.cpp, the rate limits: Limiter. `float` is a record of the operations that the code uses,
--   with their laws; Limiter/Whole has whole numbers in its place for runs. The clock is an argument.
-- - server.cpp, getUTF8strlen: Utf8. commands.cpp, split_args and the loops that join words: Args, with
--   std::stoul and std::stoi as the commands use them in Args/Numbers.
-- - world.cpp, class Chunk: Chunk, with compress_data_to in Chunk/Compress.
-- - database.cpp, class Database: Database with the properties (PropMap), the files (Storage), one region
--   file (Region) and the open streams (Handles). The disk is a value; what mkdir and opening a file to
--   write to it answer is the argument `os`. A stream is the path of its file and whether it is good. A file
--   that cannot be read counts as one that is not there, and the files of addresses can be written.
-- - world.cpp, class World: World with the chunk cache (Cache), changes to chunks (Edit), the message of
--   the timer (Updates), properties (Props, with std::stoul in Props/Stoul) and clients (Clients).
--   World/Steps runs any sequence of its operations, and World/Steps/Rounds the timer alone. `junk` is what
--   the memory of a new chunk holds.
-- - client.cpp, class Client: Client.
-- - server.cpp, class Server: Server with the handlers of disconnections (Close, with Client::safedelete),
--   connections (Connect) and messages (Message), joining a world (Join), closing many sockets (Kick),
--   the modes that close sockets when they are set (Modes), the look-ups get_cli of world.cpp (Find), and
--   saving with the files of addresses (Files). Server/Events runs any sequence of connections, messages,
--   disconnections and timers. Server/Stop has the constructor, run, quit and the destructor, and runs any
--   sequence of events, interrupts and the end of the timer that quit closes. Server/Kept has the laws by
--   which an operation of the server keeps a property; Server/Everyone, Server/Names and Server/Passwords
--   have properties that fulfil them.
-- - commands.cpp, class Commands: Commands with the tables and the search through them (Table), what a
--   command is given (Caller), `exec` (Exec), and the commands themselves: those that say something
--   (Speech), change a client (Rights), move or end clients (Moves), are for lists (Addresses) and for
--   settings (Settings). A function that a table binds is a constructor of Command, which `call` applies.
-- - Net: what is handed to uWebSockets, as a list in its order.
-- - Base: tests, lists, keyed collections and machine words.
--
-- State is passed explicitly: an operation takes the object, and where it reaches them the database, the
-- disk and the world, and returns the new ones with what it sends. Clients are named by their sockets, and
-- a client knows its world by name. Bytes are numbers; an `int32_t` is its bit pattern below 2 ^ 32, an
-- `x >> n` copies the sign (sar), and a comparison turns over the sign bit (slt); uint8_t, uint16_t and
-- uint32_t wrap as in C++. Collections are lists in the order of iteration: of an unordered one that order
-- is unspecified, and here a new entry comes first; the set of clients is in the order of the sockets.
--
-- get_handle calls itself where a stream has gone bad; it has fuel for two rounds, since the second finds no
-- stream and does not call again. `exec` calls itself through `doas`, with fuel for as many calls as the
-- message has words, since `doas` passes on two words fewer. The loops that close sockets until none is to
-- be closed have fuel for one pass more than there are sockets, since each pass but the last closes one.
-- std::to_string has fuel for twenty digits, as many as 64 bits need.
-- All other loops are recursive in the list that they go through.
--
-- Closing a socket calls the handler of disconnections before it returns, as uWebSockets does. A world
-- that nobody is left in is deleted, and saved by that, at the end of the round of the event loop
-- (end_round); exit(0), which follows the destructor of the server, comes before such an end. The idle timer
-- of a client is never started by the code and is left out.
--
-- Not modelled: what is written to the standard output, the port; AsyncHTTPGETClient.cpp, TaskBuffer.cpp,
-- color.cpp and the rest of main.cpp, which are input and output, threads, a value that is not used and
-- the reading of arguments; uWebSockets and json.hpp, which are copies of other projects.
pub mod Base
pub mod Limiter
pub mod Utf8
pub mod Args
pub mod Chunk
pub mod Database
pub mod Net
pub mod Client
pub mod Commands
pub mod World
pub mod Server
