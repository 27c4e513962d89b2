-- ===== src/Lib.antt =====
-- A runtime for language models in C++: what this development models, and what it shows.
--
-- The parts, and the files that model them
-- * UTF-8 (src/utils/utf8.cpp): Utf8.antt has `validate` and `count_codepoints`, a clause for each length
--   of a sequence; Utf8/Vector.antt has the paths on vector registers, a register as the list of its
--   lanes, and the choice between them by target and by processor (a Boolean argument).
-- * Chunking (src/inference/chunking.cpp, the structures of include/astral_rt.h): Chunking.antt has the
--   checks and the scanners of characters, words and sentences, the word-at-a-time search for white space
--   with them; Chunking/Emit.antt has the loops and the entry points chunk_count, chunk_ranges,
--   chunk_text_copy, token_chunk_count and token_chunk_ranges. The scanners use no other part.
-- * Handles (src/core/handles.hpp): Handles.antt has the table of 8192 slots with generations. The public
--   interface gives out handles for objects; the tool sets below register theirs in it.
-- * The ring (src/concurrency/spsc_ring.hpp): Spsc.antt has the two cursors, the copies of them that each
--   side keeps, and every operation. It carries streamed tokens from the decoder to the caller.
-- * The queue of several threads (src/concurrency/mpmc_queue.hpp): Mpmc.antt has the cells and the two
--   blocking calls as steps, one access of shared memory each, with the states that any interleaving of calls
--   reaches; Mpmc/Sound.antt has what holds of them in between.
-- * Strings (src/utils/string_builder.hpp): StringBuilder.antt has every append with both policies for
--   a full buffer, the growth, and the decimal formats.
-- * Sources of models (src/core/model_sources.cpp): ModelSources.antt has the registry of 64 slots and its tokens,
--   which a builder of strings makes.
-- * Generation (src/inference/session.cpp, src/inference/executor.cpp): Session/Penalty.antt has the window of
--   recent tokens and their counts, Session/Stops.antt the stop sequences, Session/Stream.antt the fragments of
--   a token's text and the tokens held back. A session pushes the fragments to the ring above.
-- * The memory index (src/inference/memory_index.cpp): KeyTable.antt has the open-addressed table from keys to
--   slots, with tombstones, the choice of its size, and of a slot what the table reads.
-- * Memory (src/memory): Memory/Frame.antt has the bump allocator of frame_allocator.hpp, Memory/Pool.antt
--   the free lists of object_pool.hpp.
-- * Tools (src/inference/tooling.cpp): Tooling/Toolset.antt has the creation, the reference count and the
--   queries of tool sets, Tooling/Json.antt the scanners over generated text, with grammars of what they look for
--   in Tooling/Json/Objects.antt (objects), Json/Members.antt (the object of a key) and Json/Names.antt (names);
--   Tooling/Parse.antt has the choice of the call.
-- Base.antt passes on the names of the library, with lists, bits and machine words; its module Span has
-- `AstralSpanU8` and `AstralErr`.
--
-- Conventions
-- Numbers are native; a sum of 32 or 64 bits is written with its remainder (add32, add64, sub32, sub64). A
-- pointer is a number or an option, null is 0 or `none`. A call under a lock is one step. Object code
-- of a template is modelled for every element type and every capacity that its static assertions allow.
--
-- Fuel
-- A scanner runs on more fuel than the text has bytes, and each round moves on by a byte at least. The outer
-- loop of the chunks does not move on for every descriptor: `none` is a loop that has not ended, and the
-- theorems name the condition under which it does end. The capacity of a builder doubles in 32 rounds at most,
-- which is enough for a length of 32 bits; a number has as many rounds for its digits as its array has bytes,
-- and `none` is a write in front of the array. The loops of the stream have a round for each byte, and for each
-- held token. The searches of the key table have a round for each cell, as the source does; its size is found in 32
-- rounds, or `none` is a loop that has not ended.
--
-- Not modelled
-- Memory orders weaker than one access at a time; the event that wakes a waiting side, and how often a waiting
-- call looks again. When a builder gives its block back. The decode loops, the state machines of sessions,
-- conversations and agents, the executor's scheduling, sampling, embeddings, the rest of the memory
-- index (rebuilding, records, vectors, the graph, snapshots), the other
-- queues, logging, error texts, the public interface, the back ends and the platform layer.
pub mod Base
pub mod Utf8
pub mod Chunking
pub mod Handles
pub mod Spsc
pub mod StringBuilder
pub mod ModelSources
pub mod Session
pub mod KeyTable
pub mod Memory
pub mod Mpmc
pub mod Tooling
