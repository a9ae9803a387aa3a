-- ===== src/Lib.antt =====
-- pulsar-lite: a message broker that speaks the Pulsar protocol, written in Rust.
--
-- The broker takes messages from producers, stores them through a managed ledger, and dispatches them
-- to the consumers of a subscription; a subscription's cursor says which entries are acknowledged.
-- These files model the parts that keep this state, each as functions on records, and prove what
-- makes them correct. A call that holds a lock, or one atomic operation, is one step; where calls
-- interleave, the sequence of steps is explicit.
--
-- Shared by all (no code of the repository)
--   Prelude             names of the library, Boolean tests, integers (Prelude.Int, with the i32
--                       conversions), lists, and BTreeMap and HashMap as association lists
--                       (Prelude.Maps, whose lemmas the components use), results with an error
--                       (Prelude.Results), and byte strings (Prelude.Bytes).
--
-- The storage side, rust/storage/managed-ledger/src
--   ManagedLedger.RangeSet    range_set.rs: RangeSet (contains, insert, insert_range, take_covering).
--                             The two loops of insert_range are merge_right and merge_left, with fuel
--                             one more than the number of ranges, since each round takes a range out.
--   ManagedLedger.Cursor      cursor.rs: SubscriptionCursor, is_message_acknowledged,
--                             advance_mark_delete, ack_shared. The loop of advance_mark_delete has the
--                             same kind of fuel. The cursor calls the range set as the code does.
--   ManagedLedger.Position    position.rs: ManagedLedgerPosition, MessageId, StoredMessage.
--   ManagedLedger.CursorRead  cursor_read.rs and cursor_init.rs.
--   ManagedLedger.Memory      memory.rs: the ledgers; Memory.Cursors has the calls on cursors. A
--                             subscription has either a mark in `cursors` or a SubscriptionCursor.
--                             Strings are lists of bytes, and the map of a topic is keyed by them.
--   ManagedLedger.RocksCursor rust/storage/managed-ledger-rocksdb/src/cursor.rs: the durable cursor
--                             over the range set of positions, with the state that is stored. Its
--                             loop has fuel one more than the number of ranges.
--
--   ManagedLedger.EntryLog    rust/storage/managed-ledger-rocksdb/src/entrylog.rs: the layout of an
--                             entry, write_batch with its roll-over, opening, and reading. The files
--                             are a map from ids to bytes; each call says whether a file opens and how
--                             many bytes a write that fails leaves. The writer thread only groups the
--                             requests. The roll-over counts file ids without the bound of a u64; only
--                             opening has the error for it, as the code does.
--
-- The protocol, rust/proto/src
--   Protocol.Codec            codec.rs: frames in both directions. The bytes of a command and of the
--                             synthesized metadata are parameters. Decoding all of a buffer has fuel
--                             one more than its bytes, since each frame takes bytes out.
--
-- The broker side, rust/src/broker
--   Broker.Redelivery            dispatcher/redelivery_controller.rs: the redelivery queue, the
--                                blocked hashes and the hashes in flight.
--   Broker.StickyKey             dispatcher/sticky_key.rs: the sticky key and murmur3_32, with u32
--                                wrap-around. Decoding the metadata is a parameter.
--   Broker.KeyShared             dispatcher/key_shared.rs: the split of the hashes between consumers
--                                and the selection of a consumer; KeyShared.Redelivered has the scan
--                                of the redelivery queue and what is put back into it;
--                                KeyShared.Batch and KeyShared.Rounds have the whole state and the
--                                dispatch of a batch (fuel for its rounds, since the count of those
--                                that remain can wrap around). The storage is the records Store and
--                                Log of the calls that are made of it.
--   Broker.ReadPosition          dispatcher/read_position.rs: the loop that passes the messages that
--                                are acknowledged. The storage is the record Log of its answers.
--   Broker.SingleActive          the loop over batches of exclusive.rs and failover.rs, and
--                                dispatcher/single_active.rs. A round for each message from the read
--                                position on, and one more, is enough, since each batch but the last
--                                sends one at least. No other task changes the state during a call.
--   Broker.Exclusive             dispatcher/exclusive.rs: the one consumer and its dispatch.
--   Broker.Failover              dispatcher/failover.rs: the order of the consumers, the election of
--                                the active one, removal with recovery, and dispatch. The fields of a
--                                consumer stand with it in the list.
--   Broker.Shared                dispatcher/shared.rs: the order of the consumers and the choice of the
--                                next one (fuel one more than the consumers); Shared.Consumers has
--                                the calls that add and remove them, Shared.Batch the dispatch of a
--                                batch, and Shared.Passes the loops around it and the calls of
--                                acknowledgements. What other calls do to the flags between two
--                                passes is a list.
--   Broker.NonPersistent         non_persistent/dispatcher/single_active.rs: sending without a store,
--                                its counters, and the choice of the active consumer.
--   Broker.ConnectionLimiter     connection_limiter.rs: permits in all and for each address.
--   Broker.ConnectionWriteState  service/connection_write_state.rs: watermarks and byte budget. The
--                                exchange loop runs over a list of rounds, in each of which the other
--                                threads have left some value; a run that the list does not end is
--                                `still_looping`.
--   Broker.PendingAcks           service/pending_acks.rs: the messages a consumer has not acknowledged;
--                                add_pending_ack is two steps.
--   Broker.ConsumerDispatch      service/consumer.rs: permits, sending to the connection's channel,
--                                and the dispatch reservation with its roll-back. The exchange loop
--                                of the permits runs over the values that it finds.
--
-- Below each of these are the modules with its proofs, named for what they prove. Tests has runs on
-- concrete inputs and an instance of every theorem that has hypotheses.
--
-- Bounds: entry ids are u64 and bounded by 2^64 - 1 where a theorem needs it; the automatic split is
-- proved for up to 32767 consumers, beyond which the product in i32 overflows. Counters of connections
-- and of hashes are not bounded.
--
-- Not modelled: the other dispatchers of the non-persistent topics,
-- topics and subscriptions, the command handlers and the connection's run loop (asynchronous input and
-- output), the RocksDB ledgers and the metadata stores (their database is not part of the repository),
-- the protocol's generated messages, metrics, and the Python launcher.
pub mod Prelude
pub mod Broker
pub mod ManagedLedger
pub mod Protocol
pub mod Tests
