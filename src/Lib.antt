-- ===== src/Lib.antt =====
-- The Linux host of the NosTale packet logger, linux/host/ntpl: the Python package that reads the
-- lines of the injected DLL, folds the game's packets into a world, and acts on it.
--
-- The parts and the files that model them. Paths are from linux/host/ntpl.
--   protocol.py      Protocol: messages and packets (parse, encode, opcode, args, ints).
--   client.py        Client: the socket's client, with what the socket and the clock answer as an
--                    argument (connect, send_packet, recv, the turns of the reader loop).
--   engine.py        World: the dataclasses and WorldState; Handlers and the files below it: one
--                    function for each `_on_…`; Engine: the table of handlers, `on` and `feed`.
--   mapdata.py       MapData: the grids and `neighbours`; MapData/Archive: load_nstc;
--                    MapData/Search: astar, and the files below it its proofs;
--                    MapData/Choice: find_map_for_positions and choose_map_for_positions;
--                    MapData/Portals: add_portal, set_gate and normalize_portals.
--   spawnlog.py      SpawnLog and the files below it: each reader of the DLL's packet log.
--   monsternames.py  MonsterNames: the codec; MonsterNames/Archive: the archive and the tables.
--   spells.py        Spells: records and fields; Spells/Catalog: parse_skill_text and load_spells.
--   gui.py           Bot and the files below it: the state and `_bot_tick`, part by part (Bot/Tick
--                    composes them); Bot/Travel: `_start_travel` and `_travel_tick`; Bot/Start:
--                    `_start_bot`.
--   botconfig.py     BotConfig: the settings and how single values are read; BotConfig/Read and
--                    BotConfig/Write: from_dict and to_dict, on the values of json.
-- A line of the DLL reaches Client.recv and is parsed into a Message, a RECV or SEND message is a
-- Packet, and Engine.feed applies the handler of the packet's opcode to the world. A host that
-- attaches late reads the same packets from the DLL's log (SpawnLog). The data files of the game
-- give the maps, the names and the spells.
--
-- Loops. A loop over a list or over bytes is recursion on them. Some run on fuel:
-- Spells.split_all on the length of the text and Client.buffered on one more than the length of
-- the buffer, since every turn takes at least one character or byte; both loops of astar on
-- search_fuel, since each round takes an item off the frontier, an item is added only with a lower
-- score of its cell, and no score exceeds the number of cells times the cost of a diagonal step.
-- The index of an archive is read as often as its own count says, as in the source.
--
-- Python itself. A text is the list of its code points; Python has the methods of `str` and
-- `int(text)` as far as the host uses them, over the tables of Unicode 14. Integers are unbounded.
-- A dict is an association list in insertion order (Base.Dict). An object that is stored in a dict
-- and changed there is the value stored anew; no other reference to it is modelled. An exception
-- is a value: of `Result` for functions, and beside the world for handlers, which keep what they
-- changed before they raised. A timestamp is a whole number of microseconds, an integer, in place
-- of a float of seconds.
--
-- A float is a value of Python.Floats: not a number, infinite, or a whole number of the units of
-- 2 ^ -1074; float(text) is an argument, and so is what json makes of a file.
--
-- A grid has a byte for each of its cells: on a shorter one the source's lookup raises an IndexError,
-- where MapData.at is `none`. No grid that load_nstc makes is shorter.
--
-- Code outside of the repository is an argument: zlib.decompress in load_nstc, the content of a
-- file (`none` is an OSError of reading it), and the answers of a socket.
--
-- Scores and times. The score of a map is its number of walkable points, in place of their
-- fraction; the times of a spell are deciseconds; the mean of portal markers is rounded exactly.
-- A cost of the path search is a fixed-point number with twelve decimals in place of a float, with
-- sqrt(2) cut off there and 1e-9 exact; the heap of the frontier gives back its least tuple.
--
-- The bot. A tick is a function of the state `Bot`: the attributes of Application that it reads or
-- writes, the values of the widgets (Settings), and the commands sent so far. The clocks are read
-- once in a tick. The client is connected, not connected, or about to find its link broken in the next
-- send, which closes it; a line that is too long is not modelled. A time is a whole number of
-- microseconds, a walked distance one of millionths of a cell, math.hypot the whole part of the square
-- root, and a percentage is compared as an exact fraction. A cast is its slot, kind and target: the
-- template that makes the packet's text is left out, and so are the status texts, the times that space
-- out warnings and the redraws. The walk to a clicked cell is a state of its own around `Bot`; that
-- `_stop_bot` ends it too is written out in the operations on the walk, not in `stop_bot`.
--
-- Not modelled: threads, the search for files by environment variables, the writing of files, the
-- command line, the MCP server and the GTK window but for the bot and its walks; the C++ DLL and the
-- Windows programs.
pub mod Base
pub mod Python
pub mod Protocol
pub mod Client
pub mod World
pub mod Handlers
pub mod MapData
pub mod SpawnLog
pub mod MonsterNames
pub mod Bot
pub mod BotConfig
pub mod Spells
pub mod Engine
mod Tests
