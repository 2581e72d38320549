-- ===== src/Lib.antt =====
-- Verification library of the SVOX Pico text-to-speech engine, pico/lib.
--
-- The engine is a chain of processing units. Each takes items, that is, small typed blocks of bytes,
-- from the buffer before it, transforms them with the help of knowledge bases (byte streams that
-- are loaded with a voice), and puts items into the buffer behind it. pico/lib/picoos.c and
-- pico/lib/picobase.c give the units their memory, their error reports, and their strings.
--
-- Status: the status codes of pico/lib/picodefs.h.
-- Memory: the memory manager of pico/lib/picoos.c, with the headers of its cells in a store. Links is
--   the list of free cells, Tiles the cells of the block, Invariant both together; Carve and Merge
--   are the moves of picoos_allocate and picoos_deallocate, which Allocate and Deallocate put
--   together; Regions and Client are what the callers see, over any sequence of calls.
-- Exceptions: the exception manager of pico/lib/picoos.c, where a unit leaves the first exception and
--   up to eight warnings. Story is the whole story of the calls, Report compares.
-- Utf8: the UTF-8 strings of pico/lib/picobase.c. Case, Lowercase and Uppercase hold the tables of
--   base_utf32_lowercase and base_utf32_uppercase; Casing, Letters, Encoding, Length, Walk and Fold
--   prove.
-- Strings: numbers in strings and in memory, extensions and fields, pico/lib/picoos.c.
-- Headers: the fields of file headers, pico/lib/picoos.c.
-- CharBuffer: picodata_CharBuffer of pico/lib/picodata.c, the ring buffer between two units. A
--   `picoos_uint16` counter wraps at 2^16 in the model as in the code. Valid is its invariant; Queue
--   reads it as a bounded queue of bytes, Items as a queue of bytes that items are taken from, and
--   Fifo as a queue of whole items.
-- Item: the functions of pico/lib/picodata.c on items in flat arrays.
-- Kfst: the finite-state transducer knowledge base of pico/lib/picokfst.c: its numbers, its searches,
--   its tables.
-- Transducer: the search of pico/lib/picotrns.c for a transduction. It uses a transducer through the
--   record FstOps, whose law IsEnumerable is proved of Kfst in Client. Paths says what a transduction
--   is; Alternatives, Reached, Regular and Sound show that only transductions are found; Rounds,
--   Cost, Descent and Stop that the search ends. Buffer is picotrns_SimpleTransducer.
-- DecisionTree: the classification trees of pico/lib/picokdt.c, kdtGetShiftVal, kdtAskTree and the
--   loop of the classify functions. Bits reads a tree bit by bit, Moves and Asks follow the cursor,
--   Ends is about the loop, Groups about the choice of a fork by groups of values. Maps makes the
--   tree of its knowledge base, and holds the maps of the values of fixed size; Input makes the
--   input vectors.
-- Common: what they share: Boolean tests, lists as arrays, fixed-width words, signed integers.
--
-- Loops are structural recursion, or recursion on fuel, with a result that says that the fuel is
-- enough: GetNextAlternative gets 2 n + 6 rounds, for n the longest enumeration; the transduction gets
-- (2 n + 6)^m + 5 steps, for m positions of its workspace; the hash chain of a pair search gets a round
-- for each byte of the stream; the search for a free cell gets one for each byte of the block; the
-- questions of a tree get one for each bit of its knowledge base, and one more; a case conversion gets a round for each character and one more.
-- C leaves a read or write outside an array undefined; where a model gives such a read a value, its
-- file says which.
--
-- Not modelled: protected memory and file access of pico/lib/picoos.c, resources and voices
-- (picorsrc.c), the processing units themselves (picotok.c to picosig.c), the input vectors of
-- graphemes, the other knowledge bases, and the engine's control and interface (picoctrl.c,
-- picoapi.c). Debug output is left out everywhere.
pub mod Common
pub mod Status
pub mod CharBuffer
pub mod Item
pub mod Kfst
pub mod Transducer
pub mod Utf8
pub mod Exceptions
pub mod Strings
pub mod Headers
pub mod Memory
pub mod DecisionTree
