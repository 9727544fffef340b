-- ===== src/Lib.antt =====
-- jmvcc: software transactional memory with multi-version concurrency control.
--
-- A program holds its shared state in versioned objects. A snapshot is taken at an epoch and sees of
-- every object the newest version that became valid no later than that epoch. A transaction is a
-- snapshot with a sandbox: its writes stay in the sandbox until the commit, which sets up a new
-- version of each object for the next epoch, refuses if another transaction has written one of the
-- objects in the meantime, and otherwise advances the epoch. Each version that a commit supersedes is
-- registered with the latest snapshot for cleanup. When the last snapshot of an epoch goes, the
-- cleanups registered with it are run, or passed on to the snapshot before it.
--
-- Files, and the code that each is about:
--   Base              Booleans, results of code that throws, lists over the native numbers, and
--                     stores indexed by numbers.
--   Timeline          The abstract view: the versions of an object in the order of their epochs,
--                     and what a snapshot sees of them.
--   CompareExchange   The interface of cmp_xchg (jml), which jmvcc/versioned2.h and
--                     jmvcc/garbage.h use.
--   CircularBuffer    The interface of ML::Circular_Buffer (jml), which jmvcc/versioned.h uses.
--   Versioned         Versioned<T> of jmvcc/versioned.h. Reads, Updates, Cleanup, Rename and
--                     Commit are about value_at_epoch, setup and rollback, cleanup, rename_epoch,
--                     and commit and validate. Object makes it a VersionedObject, and Undo is what
--                     the sandbox relies on.
--   Versioned2        Versioned2<T> of jmvcc/versioned2.h, with its data blocks in Blocks and what
--                     they hold in Blocks/Contents. Exchange is about one round of the loop around
--                     an exchange. Updates, Cleanup and Rename are about its methods, Agreement is
--                     about the two kinds of object together, Contention about the blocks that
--                     other threads publish.
--   VersionedObject   The interface Versioned_Object of jmvcc/versioned_object.h.
--   SnapshotInfo      Snapshot_Info and Snapshot of jmvcc/snapshot.cc and jmvcc/snapshot_impl.h,
--                     over the state of jmvcc/snapshot.h in Registry. Order is about the map of
--                     epochs, Retire about perform_cleanup, Remove and Register about the methods
--                     of the name. Compress is compress_epochs, its Numbering is about the entries
--                     that it makes, Renaming about the parts of its loop, and Success about when
--                     it throws nothing and what it makes of the snapshots.
--   LocalValues       The interface of ML::Lightweight_Hash (jml), which jmvcc/sandbox.h uses.
--   Sandbox           Sandbox of jmvcc/sandbox.h and jmvcc/sandbox.cc. Rollback is about the loop
--                     over rollback, Atomic about the commit when an object refuses, Accepted
--                     about the commit when none does.
--   Garbage           The critical sections of jmvcc/garbage.cc. Queue is the abstract view of
--                     them: a queue of sections, and what each cleanup waits for; Safety, Totals
--                     and Conserve are about that view. Chain, Link and Unlink are about the
--                     doubly linked list, insert and remove; Represents says which queue a state
--                     stands for, and is about check_invariants. Depth says what a call does to
--                     the queue and to how deep a thread is in its section. Around and Newest are
--                     what Schedule, Enter, HandOver, End, Removal and Departure share, which are
--                     about schedule_cleanup, enter_critical and the parts of leave_critical.
--                     Renew is about new_critical, Runs and Finish about calls in any order, Leave
--                     about leave_critical without a queue, Rcu about the template of
--                     jmvcc/garbage.h.
--   Spinlock          The lock of jmvcc/spinlock.h.
--   Transaction       Transaction::commit of jmvcc/transaction.cc, Local_Transaction of
--                     jmvcc/transaction_impl.h, and the methods read, write and mutate of both
--                     kinds of object, which are given the current transaction. Access is about
--                     those methods.
--   Isolation         These parts together. Laws is what the map of snapshots and the commit rely
--                     on of an object, and Locked is about Versioned<T> of jmvcc/versioned.h in
--                     that. Placed and Pairs are about the cleanups of one object in the map
--                     against its history, Tracking and Cleaning about that object under
--                     perform_cleanup. Members is about the snapshots in the entries. Retire,
--                     Remove, Register and Restart are about perform_cleanup, remove_snapshot,
--                     register_me, and the constructor, set_epoch and restart; Answers, Outcomes
--                     and Commit about Sandbox::commit, Finished and Transactions about
--                     Transaction::commit, Worlds about transactions with their critical sections.
--                     Steps is about all of them in any order, and Start about runs from the start
--                     of a program over locked objects.
--   Tests             The theorems at concrete objects, blocks and maps.
--
-- How the code is modelled. An exception is a result `throw e`, and what the code had changed
-- before it is not modelled. An access that is undefined in C++ is the error `invalid_access`. A
-- method that holds a lock is one step. The loop of a compare-and-exchange in jmvcc/versioned2.h
-- takes the list of the blocks that other threads have put into the word by the time of each
-- exchange, up to the last one: its length is the number of retries, and no other bound is needed.
-- The exchange itself is a parameter, with the laws of CompareExchange. Every other loop is a
-- recursion on the list that it walks, or on the index that it counts down. Epochs are 32-bit: the
-- next epoch is `(current_epoch + 1) % 2 ^ 32`, and the theorems that need it say that it does not
-- wrap round. Pointers to objects, snapshots and critical sections are numbers that index a store,
-- and a pointer to a block of jmvcc/versioned2.h stands as the block. A cleanup of
-- jmvcc/garbage.cc is a number, and the cleanups that ran are a list. The loop of jmvcc/spinlock.h
-- takes the list of the values that it finds in the word.
--
-- In Isolation a call with the cleanups that it runs is one step, though the code runs these once it
-- has let go of the lock of the map; compress_epochs is not among the steps.
--
-- Not modelled: the memory of values and blocks; the statistics of the debug mode of
-- jmvcc/garbage.cc; printing; the ACE locks.
mod Base
pub mod CircularBuffer
pub mod CompareExchange
pub mod Spinlock
pub mod Timeline
pub mod Versioned
pub mod Versioned2
pub mod VersionedObject
pub mod SnapshotInfo
pub mod LocalValues
pub mod Sandbox
pub mod Garbage
pub mod Transaction
pub mod Isolation
mod Tests
