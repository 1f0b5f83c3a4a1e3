-- ===== src/Lib.antt =====
-- AMQPGRAM, a fuzzer for AMQP 0-9-1 brokers that generates its packets from ABNF grammars.
--
-- The program reads two grammar files into tables of rules, changes rules of a copy for each
-- packet that it wants to send, decodes a rule into bytes with the help of `rand()`, and sends the
-- bytes; one thread listens to the broker and breaks up what it receives, another decides by the
-- state of the connection, or by the dice, what to send next.
--
-- Files, and the code that they model:
--   Base             the types and lemmas that all parts share. `Outcome` is the result of a C call: a
--                    value, a fault (undefined behaviour), or fuel that has run out. `Rand` is code
--                    that calls `rand()`, as a function of how many calls came before.
--   Utils            fuzzer/utils.c: numbers in byte order, entries of tables.
--   Packet           fuzzer/Packet.c, fuzzer/Packet.h: building, sending and breaking frames, and
--                    freeing and showing packets (`debug_packet_struct`, fuzzer/AMQP.c).
--   CString          the string functions of C that the parsers call, and `trim_string`
--                    (grammar/grammar-parser.c).
--   Grammar          grammar/grammar-parser.c: entries, grammars and environments. `Grammar.Table` is
--                    the interface to GLib's hash table, with what GLib documents as its laws, and an
--                    association list that has them. `Grammar.Parser` reads the rule files.
--   Terminals        grammar/packet-generator.c: terminals, ranges, quoted texts, alternatives.
--   Generator        grammar/packet-generator.c: repetitions, elements and rules.
--   GrammarInterface fuzzer/Grammar_Interface.c: rules replaced with regard to RULE_CHAOS.
--   Connection       fuzzer/Connection.c: the five packets of the class Connection and the choice
--                    among them. `Connection.Interface` is what the session knows of them: six packets,
--                    each with the state and the flag that it leaves; `Connection.Builders` fills it.
--                    `Connection.Replies` has the runs of the builders at RULE_CHAOS 0, and
--                    `Connection.Framing` what stays of them at every level.
--   Session          fuzzer/AMQP.c: the states, the deciders, a round of the channel's thread and of the
--                    listener. `Session.Invariant` has the two threads as a step relation;
--                    `Session.Protocol` is the protocol that a client of AMQP follows, by phases, inputs
--                    and outputs, with no packet in it; `Session.Handshake` runs a connection,
--                    event by event.
--                    `Session.Locking` has the two threads with their mutex and condition, a step
--                    for what a thread does between two points at which the other may act.
--                    `Session.Polling` is the loop of the listener, `Session.Waiting` `wait_response`,
--                    `Session.Setup` `setup_protocol_env`.
--   Strategy         fuzzer/AMQP.c (`check_strat`) and fuzzer/main.c (`fuzz_with_strategy`): how long to
--                    fuzz, over the readings of the clock or of the packet counter.
--   Threads          fuzzer/AMQP.c (`create_channel_thread`, `close_threads`, `fuzz`): the arrays of the
--                    threads in a heap of objects with their sizes, and the waiting for the threads, over
--                    a world in which threads are joined (`Threads.Joining` states what POSIX documents, and what the
--                    listener leaves behind).
--   Main             fuzzer/main.c: the options, as what `getopt` finds, the seed, the connection to the broker
--                    (`Main.Connecting`), and the start of the strategy.
--   Tests            the theorems at concrete inputs, and runs.
--
-- How state is modelled: a buffer is the list of its bytes, so a write outside is a fault, even one that
-- an allocator with larger objects than were asked for lets pass; a C string
-- is the list of its bytes with no terminator; a pointer that may be NULL is an Option; a grammar that
-- is changed in place is passed in and returned; `malloc` is a function from a size to the bytes that
-- the new object happens to hold. `int` is a number below 2 ^ 32 where it may be negative, with its
-- wrap-around written out, and a number that faults at 2 ^ 31 where it may not. The results of `rand()`
-- and the answers of the socket are arguments.
--
-- Fuel: `collect_alternatives` takes one more than the length of its text, and `populate_lines` the
-- length of the file; neither runs out. `count_digits` takes one more than its number, and `grow` one
-- more than the room that is asked for. `decode_rule` takes the depth of nested rules, since a grammar
-- may call itself for ever, and `parse_element` one more than the length of its text, for repetitions
-- of repetitions, which is enough. `choose_frame_max` takes the number of rounds, since the dice may never come right;
-- `parse_loop` takes the number of rounds; two are enough for all messages but those that begin with
-- the end mark. `check_strat` and `fuzz_with_strategy` take the number of rounds.
--
-- Not modelled: logging and the printing of progress; freeing, but for what the functions free that do
-- nothing else (`Packet.Releasing`, `Grammar.Releasing`); the sockets, the clock and `getrandom`, whose
-- answers are arguments; the mutex of the packet counter, and the finer steps of a thread behind its own
-- mutex; `malloc` that fails; in fuzzer/AMQP.c `thread_cleanup_handler`, which frees its argument. The
-- files in abnf/ are data: `Tests.Files` has their texts and the tables that the parser makes of them,
-- and the witnesses use these tables.
pub mod Base
pub mod Utils
pub mod Packet
pub mod CString
pub mod Grammar
pub mod Terminals
pub mod Generator
pub mod GrammarInterface
pub mod Connection
pub mod Session
pub mod Strategy
pub mod Threads
pub mod Main
pub mod Tests
