-- ===== src/Lib.antt =====
-- A model of the IRC server of this repository, and the theorems that make it correct. The server
-- (src/, include/) runs one `poll` loop: it accepts connections, collects the bytes of each client
-- into lines, parses a line into a message, runs the command that it names, and queues the replies
-- in the send buffers, from which the loop writes to the sockets. Commands read and change the
-- clients (by descriptor) and the channels (by name) that the server owns.
--
-- The files and the parts that they model:
--   * Base: names of the libraries and of the children, Boolean tests, lists over native numbers.
--   * Text: `std::string` as a list of bytes: find, comparison, the case mappings of
--     src/server/Server.cpp, stream extraction (Text/Tokens), decimal numbers (Text/Decimal).
--   * Map: `std::map` as an association list in the order of its keys.
--   * Parser: src/parser/Parser.cpp. Client: src/client/Client.cpp. Channel:
--     src/channel/Channel.cpp, whose lists of `Client *` are lists of descriptors.
--   * Server: the state and the lookups of src/server/Server.cpp, and `broadcastMessage`, which
--     writes to clients. A write through a pointer is `update_client` or `update_channel`.
--   * Command: one file for each file of src/commands/, the whole handler; Command/Dispatch is
--     `processLine`. A handler takes the descriptor and the fields of its client as they were when
--     the line came in; where the code reads them after it has changed them (the greeting of NICK
--     and USER, the attempts of PASS, the lists of a channel) the model looks them up again.
--   * Policy: an abstract description of what a client may do, as single acts with the rights that
--     they take and the parameters of the command that they come from; sending a message takes no
--     right there. Policy/Refine relates each handler to it; Policy/Invariant reasons on the acts, so
--     that no proof there looks into a handler. Command/Effects looks into the handlers, for what
--     they do on each branch: Command/Effects/Results writes the channels that come out field by
--     field, and Command/Effects/Holder reads who has a nickname off the clients one by one.
--     Command/Mode/Meaning compares MODE with a reading of the mode string that does not know the
--     channel, and Command/Mode/Outsider is about MODE of a client that may change nothing.
--   * Loop: the event loop of src/server/Server.cpp. The answers of `accept`, `recv` and `send` are
--     data types, arguments of the steps; a turn of the loop is an interrupted or failed `poll`, or
--     a round over the events that `poll` reports, and the shutdown flag is the end of the list of
--     turns. Loop/Invariant carries the invariant of Policy/Invariant through the loop, Loop/Drain is
--     about the lines of a chunk, Loop/Quota about the limits on connections, Loop/Departure,
--     Loop/Removal and Loop/Farewell about clients that leave, and Loop/Poll about the poll entries.
--     Loop/Steady says what reads, writes and commands leave alone in the connections, and Loop/Carried
--     what the loop asks of a property that it is to keep.
--   * Arguments: the checks of port and password in src/main.cpp. Startup: its `main`, and the
--     constructor, `setupSignals`, `setupSocket` and the head of `run` in src/server/Server.cpp; the
--     results of the system calls are arguments.
--   * Descriptors: the same program with the sockets that it opens and closes: `closeSocket`, the
--     destructors of the server and its clients, and the branches that reject a connection. An
--     exception keeps the state that it leaves, which the destructor then works on. Descriptors/Agrees
--     relates its loop to Loop, Descriptors/Tracked and Descriptors/Running carry what is open
--     through the loop, and Descriptors/Exit follows it to the end of `main`. The kernel is a list of
--     open descriptors and a flag for a `close` of one that was not open; that `accept` returns none
--     that is open is a hypothesis.
--   * Bot: src/bot/Bot.cpp, a client of the server, and Bot/Arguments: src/bot/main.cpp. Its socket
--     blocks: an action (Bot/Socket) is given the answers of `send` to come, and ends with a value,
--     an exception, or in a call that waits. Bot/Login, Bot/Registration, Bot/Exchange,
--     Bot/Greeting and Bot/Reply follow its lines into the model of the server and back, and
--     Bot/Reading, Bot/Admission and Bot/Handshake the bytes of its login from its socket to its
--     registration.
--     Bot/Whole cuts a sequence of bytes into lines apart from the bot's buffer; Bot/Drain and
--     Bot/Returning compare the loops over chunks and lines with it.
--     Bot/Descriptors follows its sockets, with `closeBotSocket` and the destructor.
--   * Tests: fixed states, runs, and an example of each theorem that has conditions.
--
-- Recursion: all loops are structural, but for those over the lines of a buffer (of a client, and of
-- the bot), which are on fuel: one more than the bytes in the buffer, each line taking its newline
-- from there. A decimal number has at most 20 digits, enough for a `size_t` of 64 bits. Counters that
-- the code bounds by UINT_MAX are bounded by it here. Descriptors are natural numbers.
--
-- Exceptions: those that end the server (a failed set-up, a failed `poll` or listening socket, a poll
-- entry of no client) are `none` in Startup, Loop and Loop/Events; those of the bot carry their
-- message; failed allocations are left out.
--
-- Not modelled: the effects of system calls beyond their results and the descriptors, the memory that
-- destructors free, and lines for logs and the terminal. That `close` may itself fail is a line for
-- the terminal only, and the descriptor counts as closed.
mod Base
pub mod Text
pub mod Map
pub mod Parser
pub mod Client
pub mod Channel
pub mod Server
pub mod Command
pub mod Policy
pub mod Loop
pub mod Arguments
pub mod Bot
pub mod Startup
pub mod Descriptors
pub mod Tests
