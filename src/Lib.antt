-- ===== src/Lib.antt =====
-- umaa-cpp: a C++ library for UMAA services (unmanned maritime vehicles) over DDS. Modelled are the
-- parts of it that keep state of their own.
--
-- The command provider takes commands from the bus, keeps a session for each and moves it through
-- its states in cycles. The state machines tell how a command, a task and an objective go through
-- their states; the services call one of their methods for each message or each cycle. A large list
-- is a list that is too long for one DDS message: a writer publishes its elements, linked by GUIDs,
-- and metadata apart from them; a reader keeps the elements that arrive in a table and puts the
-- list together when metadata arrives. Both order their messages by time stamps. The ring buffer
-- hands items from one thread to another. A large set is a large list without the links. The command
-- consumer is the other end of the provider: it sends commands in sessions and reads what is said
-- about them.
--
-- - StateMachine/Command, StateMachine/Task, StateMachine/Objective:
--   src/umaa/CommandStateMachine.cpp, src/umaa/TaskStateMachine.cpp and
--   src/umaa/objective-executors/core/ObjectiveStateMachine.cpp with their headers. A function per
--   method, on the record of the object's fields; `step` is one call that
--   returns a Boolean, `call` one of the whole public interface, `reset` included.
--   Transitions compares the calls with the table in the header's comment, Traces is about
--   histories of calls.
-- - Time: the order on DateTime in src/umaa/UmaaUtils.cpp.
-- - LargeList: the class of include/umaa/LargeList.h. `receive_element` and `receive_metadata` are
--   the two overloads of `receive`; `walk` is the loop of `generateList`, on fuel. LargeList/Loop
--   is about that loop, LargeList/Generate about what it returns and the cache.
-- - LargeList/Reader: the class of include/umaa/LargeListReader.h, over LargeList. `process_all` is
--   the loop over a batch of samples, `update_loop` the loop over the batches, on fuel.
-- - LargeList/Writer: the class of include/umaa/LargeListWriter.h. Add holds update, prepend,
--   append and insert (`_all` for the overloads on vectors), Remove holds popBack, popFront, remove
--   and clear. A call is a function on the writer that ends in success, in ERROR or in undefined
--   behaviour. Store, Stores, Steps, Sync, Sound, Append and History lead to Refinement, in which
--   writer and reader meet, and to Delivery, in which LargeList/Reader takes the messages; Faults is
--   about popBack, insert, remove and append in corner cases.
-- - LargeSet: the class of include/umaa/LargeSet.h, `collect` the loop of `generateSet`; LargeSet/Generate
--   is about what that returns. LargeSet/Reader is the class of include/umaa/LargeSetReader.h.
-- - LargeSet/Writer: the class of include/umaa/LargeSetWriter.h; Batch holds `insert` of a vector (`insert_all`),
--   the second constructor and the destructor. Ids, Elements, Received, Sync, Steps, Update, Removal
--   and History lead to Refinement, in which writer and reader meet; Collision is about `update` onto
--   a value that is there. Equality of the elements is a parameter, that of the generated types.
-- - Consumer: the class of include/umaa/services/base/CommandConsumerBase.h; Sessions holds what opens
--   a session and sends in it. Reads and Returns are about the loops that read, Calls, Keeping, Open
--   and Protocol about histories of calls.
-- - Conditional: the classes of src/umaa/services/ConditionalReportProvider.cpp, ConditionalAddProvider.cpp and
--   ConditionalDeleteProvider.cpp with their headers. Conditional itself is the report, over
--   LargeSet/Writer, Specialize holds its templates `addSpecialization` and `updateSpecialization`, Add and
--   Delete the methods that the two command providers override. Topics is about equality of topics and
--   conditionals; Ids, Upsert, Wait and Clearing are about what the commands do to the report.
--   Payloads is the class of include/umaa/SpecializationCache.h and what its reads return.
-- - Guid: the class of include/NumericGuid.h, as the bytes that the other modules take for a number.
-- - Health: the classes of include/health-status/HealthStatusControl.h and HealthStatusData.h with
--   src/health-status/HealthStatusControl.cpp; a round of the thread is a call of its own. Reports is about what
--   a subscriber sees.
-- - Transport: the answers of senders and readers, in include/io/dds/base/DdsIoTypes.h.
-- - Provider: the classes of include/umaa/services/base/CommandProviderSession.h and
--   CommandProviderBase.h. Handlers holds what a cycle does to one session, Incoming what it does
--   with a message, Cycle the method `cycle`. Sessions, Rounds and Sweep are about what becomes of
--   the sessions, Invariant, Upkeep and Settled about whole cycles, and Busy about commands that
--   come while others are active or wait.
-- - RingBuffer: the class of include/common/DataRingBuffer.h. Queue says when a buffer holds a list
--   of items, Push and Reads are about single calls, Refinement is about histories.
-- - Base: lists, tables, signed numbers and runs of a step function. The modules called Examples
--   apply the theorems at concrete inputs.
--
-- Bounds. The fuel of `walk` is the size of the table and one: each round marks an entry that was
-- not marked. That of `clear` is the number of elements: each round removes one. The rounds of a
-- session in a cycle are at most 4: all but the last take it to a later state. The batches of an
-- update of the reader are at most 52: all but the last have a sample, and more than 50 samples end
-- it. The loops of the consumer and of the cache of specialized conditionals have no bound of their
-- own: their fuel is a parameter, and a theorem about them holds for every fuel or says which is
-- enough. Positions and sizes of lists are natural numbers; the indices of the ring buffer are those
-- of a uint32_t.
--
-- What the writer calls and its object does not hold is a parameter, `Env`: the GUID factory, the
-- clock and the DDS sender, as their sequences of answers. `IsReliable` says what the refinement
-- relies on: GUIDs that are new and not NIL_GUID, a clock that does not go back, a sender that
-- sends. Between writer and reader the messages keep their order. The provider has an `Env` of its
-- own: the methods that a service overrides, which are taken not to change the sessions, the reader
-- and the senders; so have the consumer and the report of conditionals, which also takes the answers
-- of the caches of payloads for a parameter. Sessions are held by those who are handed them.
--
-- Not modelled: the conditionals themselves and their factory, the other providers and consumers of
-- reports, the objective controller; DDS and UDP input and output,
-- configuration, environment and logging, which are calls of other libraries; poses, guidance and
-- geography, which compute with floating-point numbers.
pub mod Base
pub mod Transport
pub mod StateMachine
pub mod Time
pub mod LargeList
pub mod LargeSet
pub mod RingBuffer
pub mod Provider
pub mod Consumer
pub mod Conditional
pub mod Guid
pub mod Health
