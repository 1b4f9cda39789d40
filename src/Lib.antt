-- ===== src/Lib.antt =====
-- Verification of the yuri game server (Rust, under src/).
--
-- A server keeps a `Session` for each TCP connection: a read buffer that the I/O task fills and the
-- parser consumes, and a write buffer that packet builders fill and the I/O task flushes. Connections
-- pass the table of locked addresses and the throttle before they get a session. Packets are framed
-- by a length field, carry a trailer from which their key is derived, and are ciphered by exclusive or.
-- A client first talks to the login server, which forwards what it asks to the character server over a
-- link of its own; the character server answers, and sends an admitted player to one of the map servers,
-- each on a link of its own. The map server runs the game.
--
--   Base            shared names, lists, words, integers, maps, the laws of bitwise operations
--   Session         src/session.rs: the state of a connection (Session), its reads (Session/Read), its
--                   writes (Session/Write), the session table (Session/Manager) and the parse loop
--                   (Session/Io). The invariant of the buffers (Session/Valid), the buffers as queues
--                   (Session/Queue), two sessions joined by a socket (Session/Wire), runs of
--                   operations (Session/Calls) and of connections (Session/Limit), and the end of the
--                   parse loop (Session/Progress)
--   Network         src/network: acl.rs (Network/Acl, Network/Address), crypt.rs (Network/Crypt,
--                   Network/Cipher, Network/Trailer), ddos.rs and throttle.rs (Network/Ddos,
--                   Network/Throttle), the frame of mod.rs (Network/Frame)
--   Config          src/config.rs: the configuration and its validation
--   Login           src/servers/login: the packets that are built (Login/Packet), how texts are read
--                   (Login/Text), who is accepted (Login/Accept), what is done with a client's packet
--                   (Login/Client), the link to the character server and what a client is told for its
--                   answers (Login/Interserver). Login/Message, Login/Sealed and Login/Redirect follow
--                   packets to the client; Login/Credentials and Login/ChangePass have every outcome of
--                   the handlers
--   Chars           src/servers/char: the link to the login server (Chars/Link) and its handlers
--                   (Chars/Logins), the links to the map servers and theirs (Chars/Maps), and both as one
--                   sequence of events (Chars/Events). Chars/Requests, Chars/Sent, Chars/Delivered,
--                   Chars/Confirmed, Chars/Handshake, Chars/Acknowledged and Chars/Announced follow a
--                   message from one server to the other; Chars/Online is about who is online
--   MapServer       src/servers/map/packet.rs: a routed player, and the list of the maps
--   Lifecycle       src/core.rs and src/ffi/core.rs: the state of a running server, its signals and its
--                   end (Lifecycle/Shutdown)
--   Game            src/game: the script variables of pc.rs, mob.rs and npc.rs (Game/Registry: Player,
--                   Creature and Local have the operations, Slots the loops they share, Stored and Lost
--                   what a write does), the inventory of pc.rs (Game/Inventory: Item, Space, Add, Delete
--                   and Drop have the operations, Stall and Blocked say when the loop of adding ends (Searches has lemmas), Visits and
--                   Dropped follow an item to the floor), its equipment (Game/Equip: Wear has the checks
--                   before an item is put on, Script the second phases; Check, Rings and Kept what they
--                   keep), the award of experience (Game/Experience), the timers of spells of pc.rs and
--                   mob.rs (Game/Magic: Slot, Timers and Duration; Still, Ticks, Elapsed and Ends follow a spell to its end,
--                   Starved has the timer of aethers); of mob.rs and npc.rs how monsters and NPCs walk
--                   (Game/Walk: View, Mob and Npc have the operations, Newcomers, Step, NpcStep and Ghost
--                   what a step does) and get their ids (Game/Ids: Search; Free, and Onetime for runs of
--                   spawns and deaths); of mob.rs the tick of a monster (Game/Ai: Brain has its state and its
--                   return, Target whom it chooses, Handle the states; Window, Hiding, Chosen and Fit what they
--                   keep) and what it drops (Game/Drops); of npc.rs the timers of an NPC
--                   (Game/Npcs); and the start and the end of a player's timers, of pc.rs (Game/Clock)
--   Tests           runs on concrete inputs, and the theorems at concrete inputs
--
-- A byte, a u16, a u32 and a usize are native numbers, with the wrap written out; a usize has 64 bits,
-- and sums wrap as in a release build. Buffers are lists of bytes. Errors are values of the source's
-- error type, and an index or slice out of range is a panic, a value of its own. A HashMap is an
-- association list. The parser that the I/O task calls is C code, MD5 a third-party package, and the
-- clock C code: all are parameters, as are the item and monster databases, the
-- checks of a cell in the C code, and the random numbers. What scripts do is a parameter where the code reads
-- again behind them what they can change (the tick of a monster, its drops, the timer of durations, the hooks of equipment,
-- the timers of NPCs); the scripts of the other timers of spells are taken to leave the slots of spells as they
-- are, and the scripts of traps and drops of items come last and are left out. C strings are lists of bytes without
-- the end, and C ints are integers. The parse loop runs on fuel: one more than the number of unread
-- bytes is enough, since every round but the last consumes a byte. The loop that adds an item runs on
-- fuel too; one round is enough where the whole amount fits. The searches for a free id run on fuel: a round
-- for each id in the table and one more is enough; the compaction of ids has a round for each id of the
-- range. The loop of the link to the login server
-- has as much fuel as packets are asked of it; a handler of the character server is one step, though
-- other tasks may run between its locks, but the end of a map server's connection is two steps, and
-- what a handler sends is a list of messages. The databases, zlib, the repair of ill-formed text and the clock are parameters.
--
-- Not modelled: the sockets themselves and the async runtime, the listeners, logging, SQL, the Lua
-- bindings and the C code; of the login server how a request waits for its answer, the language file and
-- the metadata files; of the character server the boards and the mail; of the game its packets,
-- combat, the stats, items in use, the other timers, the commands of game masters and the loading of
-- tables.
pub mod Base
pub mod Session
pub mod Network
pub mod Chars
pub mod Config
pub mod Game
pub mod Lifecycle
pub mod Login
pub mod MapServer
pub mod Tests
