-- ===== src/Lib.antt =====
-- libnbf, a C++ network library with event loops, connections, protocols and clients.
--
-- A connection reads bytes from a socket into a Buffer. Its decode loop (net/connect.cpp) asks the
-- protocol for messages until the input has none left, and hands each to the connection; a protocol
-- writes messages into the output Buffer, from which the socket is filled. The event loop of each
-- thread keeps its timers in a binary heap and calls those that are due. A client connection keeps the
-- messages that wait for an answer in a sequence, each with a timer of its own. A user's thread sends
-- through the routers of ClientMgr, which choose a client in turn; the message goes to an io thread,
-- and its answer, or the message marked as failed, to the queue of the thread that sent it.
--
-- The paths below are from the repository's root.
--   Prelude          names passed on, Boolean tests, lists and their slices under native indices,
--                    arithmetic of size_t, memory as a function, strtoll and the "%u" of sprintf.
--   Buffer           src/common/buffer.h and buffer.cpp. `Buffer` is the block with its positions as
--                    offsets; `ensure_size` is EnsureSize, `write` is Write, `find_bytes` is FindBytes.
--                    malloc is an argument, which gives a block of the size asked for or nothing. The
--                    doubling of EnsureSize runs on fuel, 64 rounds, since the size doubles each time.
--   Message          src/message_base.h and message.h: the records of messages and their enums.
--   Rapid            src/protocol/rapid/rapid_protocol.cpp: frames with a head of 16 bytes in network
--                    order; `decode` is Decode, `encode` is Encode.
--   Connect          src/net/connect.cpp: DecodeMsg, over any protocol, with what the protocol keeps
--                    between calls beside the input buffer. The fuel is the number of rounds; each
--                    round of the rapid protocol that goes on takes bytes from the input, so one more
--                    than the bytes of the input are enough for it.
--   Heap             src/common/heap.h: the heap that timers stand in. A node is a number, the address
--                    that Insert gives out; `items` is heap_items_, `index` and `val` are the fields of
--                    the nodes. The walk down runs on fuel, the number of items, since its slot grows.
--                    realloc is an argument, true where it gives a block; an Insert is none where
--                    Resize gets no block or too short a one, its size being an int.
--   Timer            src/event/timer: AddTimer, DelTimer, ProcessTimer and its two variants. The clock
--                    and the callbacks are arguments. The fuel is the number of rounds; where callbacks
--                    leave the timers alone, one more than the timers is enough.
--   TimerMgr         src/common/timer_mgr.cpp: the timers that coroutines use, a map from times and a
--                    map from ids.
--   Redis            src/protocol/redis: ParseReply, ParseCmd, and the Decode and Encode of the
--                    protocol. A read past the text is an outcome of its own. The loop of Decode runs
--                    on fuel, the size of the input, of which each round takes two bytes or more.
--   Sequence         src/net/async_sequence.cpp, sync_sequence.cpp and the timeouts of
--                    async_client_connect.cpp: the messages of a client that wait for an answer. The
--                    timers of the event loop are a parameter.
--   Coroutine        src/coroutine/coroutine_impl.cpp and coroutine_schedule.cpp: the statuses of a
--                    thread's coroutines, and whose turn it is. A call of swapcontext ends an
--                    operation; the stacks are left out. Coroutine.Actor is coroutine_actor.cpp, the
--                    box in which a coroutine waits for an answer.
--   Ring             src/common/lockfree_ringbuffer.h: push and pop as steps under the spin lock. An
--                    access behind the block of real_queue_size_ elements is the result none. The
--                    doubling of init runs on 32 rounds of fuel, enough for a size of an int.
--   Client           src/client: a client, GetValidClient of the router of one address, the routers of a
--                    name and ClientMgr. The result none stands for a null pointer or a division by
--                    zero; the events of a run tell what became of each message. The connections that
--                    Start makes and the response of a coroutine's wait are arguments.
--   ConnectManager   src/net/connect_manager.cpp: AddConnect, SetRelease and the sweep that deletes the
--                    connections released long enough ago. The clock is an argument, cut to an int where the
--                    source does so.
--   Service          src/service: the queues of the handler threads, GetServiceHandleId with a counter
--                    for each sending thread, and ServiceHandler. The clock is an argument; the
--                    handlers of the user are ends. Service.Coroutines is what becomes of a message on
--                    a thread of CoroutineServiceHandler.
--   NetThread        src/net_thread_mgr: what an io thread does with a message of Client, and how a
--                    request that fails comes back to the threads of Service. EncodeMsg is an argument.
--   EventTable       src/event/event_data.cpp and event_driver.cpp: the table of descriptors. The loop of
--                    ReInitEventData runs on fuel, the descriptor itself, since each round adds to the
--                    size. The results of realloc and epoll_ctl are arguments. A descriptor is an integer. The
--                    result none is an access outside the block, or a size too large for an int.
--   Text             src/common/string_util.cpp and string_util.h: letters, hex digits, url encodings,
--                    base 64 in its two forms, trimming and splitting. A string is a list of bytes.
--                    The loop of Split runs on fuel, one more than the bytes of the text, since each
--                    round takes a delimiter.
--   Http             src/protocol/http: `encode` is Encode, `wirte_to_buf` is WirteToBuf, `decode` is
--                    Decode, `on_callback` is what HttpParser does at each callback, Http.Util and
--                    Http.Request are http_util.cpp. The parser under third is an argument, as is the
--                    conversion by iconv. Decode runs on fuel, two rounds more than the input has bytes,
--                    since each round that goes on takes a byte or fails. Http.Framing is a receiver, the
--                    independent description of what is sent.
--   IniFiles         src/common/ini_files.h and ini_files.cpp: `open_ini` is Open, `load_from_buffer` is
--                    LoadFromBuffer, `save_to_file` is SaveToFile; IniFiles.Edit has SetValue and the
--                    other changes, IniFiles.Binary the two functions for bytes. The maps are lists in
--                    the order of the keys (Prelude.TextMap), the files are a map from paths to texts,
--                    and which paths can be written is an argument.
--   Tests            runs on concrete inputs.
--
-- Where two parts are used together: Rapid, Redis and Http use Buffer, Connect takes a protocol's Decode as
-- an argument and is applied to Rapid's, Timer uses Heap, and NetThread takes the messages of Client and
-- gives them back to Service.
--
-- Not modelled: sockets, epoll, the start and stop of threads, the connecting and reconnecting of
-- clients, the logger, monitoring and the command line, which are input and
-- output for the most part, and the http parser under third, which is of other authors. A lock that guards
-- one operation makes that operation one step here. Sizes are natural numbers; where the wrap-around of
-- a machine integer can be reached it is written out.
mod Prelude
pub mod Buffer
pub mod Message
pub mod Rapid
pub mod Connect
pub mod Heap
pub mod Timer
pub mod Redis
pub mod TimerMgr
pub mod Sequence
pub mod Coroutine
pub mod Ring
pub mod Client
pub mod ConnectManager
pub mod Service
pub mod NetThread
pub mod EventTable
pub mod Http
pub mod IniFiles
pub mod Text
mod Tests
