-- ===== src/Lib.antt =====
-- Verification library of CppNioSocket, a C++ network library after the model of Netty.
--
-- The parts of the program. A connection reads bytes from a socket into a CharBuf, a growing char
-- array with a reader and a writer index, and passes it along a pipeline of handlers.
-- ByteToMessageDecoder collects the bytes and calls a decoder on them in a loop until it makes no more
-- progress; LengthFieldBasedFrameDecoder is such a decoder, which cuts the bytes into frames by a
-- length field in each of them. Pooled buffers get their memory from an arena, which rounds a request
-- to a size class and takes runs of pages from chunks, each a buddy allocator; a
-- page serves small requests from elements of one size. The size of the buffer
-- for the next read is guessed from the reads before.
--
-- Which file models which part:
--
-- Memory.antt, Memory/Laws.antt: src/common/buffer/HeapCharBufUtil.hpp, the big-endian accessors of a
--   char array (`set_short` for setShort and setUShort, and so on).
-- Bits.antt, Capacity.antt, Capacity/Growth.antt: CommUtil::roundUpPower2 of src/include/CommUtil.hpp
--   and AbstractCharBuf::calculateNewCapacity of src/common/buffer/AbstractCharBuf.cpp. The loop there
--   runs on fuel; 33 rounds are enough because 32 doublings of an `int` leave 0.
-- Buffer.antt and Buffer/: src/common/buffer/AbstractCharBuf.cpp over UnpooledHeapCharBuf.cpp. A
--   `CharBuf` has the fields of the class, a method is a step on it that may throw. `read_field` and
--   `write_field` take the width and stand for readChar to readULong and writeChar to writeULong.
-- ByteToMessage.antt and ByteToMessage/: channelRead, callDecode and resetCumulation of
--   src/common/net/handler/codec/ByteToMessageDecoder.cpp, with the decoder as a parameter. The loop
--   runs on fuel; one round more than there are readable bytes is enough for a decoder that reads in
--   every call but the last. A buffer there is a value with its count of references, and what is let go
--   is collected: channelRead does not look again at a message that it took over.
-- Decoder.antt and Decoder/: src/common/net/handler/codec/LengthFieldBasedFrameDecoder.hpp on a
--   `CharBuf`, alone, under callDecode and under channelRead. `int` and `long` sums are computed in `ℤ`, and are undefined
--   where they leave the range of their type.
-- Chunk.antt and Chunk/: src/common/buffer/PoolChunk.cpp and PoolChunk.hpp, the buddy allocator behind
--   pooled buffers. `descend` is the search of allocateNode, which needs one round more than the depth
--   it searches; the loops that go up need no more rounds than the number of the node. The tree of runs
--   is in Chunk/Tree.antt.
-- Arena.antt, Arena/Classes.antt: src/common/buffer/PoolArena.cpp and PoolArena.hpp, the size classes
--   only: normalizeCapacity, findSubpagePoolHead, sizeClass.
-- Subpage.antt and Subpage/: src/common/buffer/PoolSubpag.cpp and PoolSubpage.hpp, a page cut into
--   elements of one size. The memory is a function from addresses to pages, so that the ring of pages
--   and its aliasing are as in the code. A BOOST_ASSERT that fails is the outcome `assertion_failed`.
-- Queue.antt and Queue/: src/include/ObjectQueue.hpp, the queue between threads, on a heap of items
--   linked by pointers. The address that `new` returns is an argument. clear runs on one round more
--   than the size.
-- Pipeline.antt and Pipeline/: DefaultChannelPipeline.hpp and .cpp, AbstractChannelHandlerContext.hpp
--   and DefaultChannelHandlerContext.hpp of src/common/net/channel/, the handlers of a connection. The
--   contexts are on a heap, doubly linked between the head and the tail; Edit.antt has the operations on
--   the list, Events.antt the routes of events, on which what a handler does is a parameter, as is the
--   text that boost::format makes of a number. The loops run on fuel; a few rounds more than there are
--   contexts are enough.
-- ChunkMemory.antt and ChunkMemory/: allocate, free and initBuf of src/common/buffer/PoolChunk.cpp over
--   Chunk and Subpage. The address of a new page and what its bitmap's memory holds are arguments; what
--   buf->init is told is a `Placement`.
-- ChunkList.antt and ChunkList/: PoolChunkList.cpp and .hpp of src/common/buffer/, and of PoolArena.cpp
--   the six lists, allocateNormal and freeChunk. A list is the sequence of its chunks' addresses; a
--   chunk is an interface of its usage, an attempt to allocate and a release, which Runs.antt fills with
--   the buddy chunks. The moves up and down
--   run on fuel: there are six lists, so that six or seven rounds are enough. The least `int`, the
--   lower bound of the first list, is 0.
-- ThreadCache.antt and ThreadCache/: src/common/buffer/PoolThreadCache.cpp and .hpp, the handles that a
--   thread keeps to use again. A queue is the list that its ObjectQueue holds; the buffers' init and the
--   arena's freeChunk are an interface. log2 runs on as many rounds as its argument. The calls of the
--   cache in PoolArena.cpp are under #if 0. The destructor deletes regions of an incomplete type, whose
--   objects are of derived classes: that is `undefined`.
-- Receive.antt and Receive/: AdaptiveRecvByteBufAllocator.hpp and .cpp of src/common/net/channel/ and
--   DefaultMaxMessagesRecvCharBufAllocator.hpp there, the size of the next receive buffer, and record of
--   src/common/net/AbstractConnection.cpp. The search of the size table runs on
--   one round more than the table has entries.
-- Common.antt and Common/: Boolean tests, lists, integers and steps that may throw.
-- Tests/: concrete inputs.
--
-- A value of 8 to 64 bits is its bit pattern, a natural number. Behaviour that C++ leaves undefined (an
-- access outside of an array, an overlapping memcpy, an overflow of a signed sum) is the outcome
-- `undefined`, which no handler catches, but for a sum in checkIndex, which is refused as one that wraps,
-- and realloc of an array of new[], which is taken to act as on a block of malloc.
--
-- Not modelled: buffers that several owners write to, and slices that outlive a change of their buffer;
-- how an arena serves small requests from subpages; of connections all but what a read tells the
-- receive handle; threads and sockets; SCTP.
mod Common
pub mod Memory
mod Bits
pub mod Capacity
pub mod Buffer
pub mod Decoder
pub mod ByteToMessage
pub mod Chunk
pub mod ChunkList
pub mod ChunkMemory
pub mod ThreadCache
pub mod Arena
pub mod Pipeline
pub mod Queue
pub mod Receive
pub mod Subpage
mod Tests
