-- ===== src/Lib.antt =====
-- Verification of the cosec examples: programs that show techniques of C++ for network, concurrent and
-- desktop code. Each has its own directory, and they share utils.
--
-- Chat models the room of the chat server, asio-shared/src/chat.hpp and chat.cpp. The lambdas of its four
-- members run on one strand, so a history is a sequence of whole lambdas: session_created,
-- message_received, session_destroyed, and `written`, the end of an asynchronous write in `send`. The
-- queue is a list of messages with the numbers of their list nodes, an iterator is such a number, and a
-- step that follows an iterator to a node that is gone has the outcome of a fault. The lambda of
-- message_received runs within the call or after it, when the text that it refers to is gone and a
-- message that is not dropped has no result. The handler of an ended write is taken to run before the
-- lambda of its session's departure. Children of Chat: Entries and Queue (lemmas), Invariant, Received,
-- Written, Release and Destroyed (one per member), Mailbox (the abstract view: the texts that a session
-- is still to be sent), Room (histories) and Tests.
--
-- ChatSession models asio-shared/src/chat_session.cpp, which reads lines and calls the room: `line_read` is the
-- handler of async_read_until, and a history any sequence of its completions. Its children are Lines and Tests.
--
-- Select models the event loop, select/src. Select.Reactor is select_reactor.hpp and
-- select_reactor.cpp: `init`, `stop`, `handle`, `close`, and `iterate`, one pass of the loop of run().
-- What select(2) returns and what a read of the wake-up pipe returns are arguments, and members of
-- other threads come between the iterations. Select.ThreadPool is thread_pool.hpp, thread_pool.cpp and
-- task.hpp: `start`, `submit` for operator(), `wake` and `finish` for the two halves of the loop of a
-- worker, `stop` and `begin_join`; what a thread does with the mutex held is one step.
-- Select.AsyncFileDescriptor is async_file_descriptor.hpp, a client of the reactor's `handle`.
-- Select.ReadUntil is async_read_until of composite_async_ops.hpp and Select.Session the session of
-- main.cpp, one step per completion of a read or write. Children of Session: Lines and Answers (what a
-- text is to be answered with), Found and Served (lemmas), Steps, Room, Overrun and Tests.
--
-- Treeview models treeview/src. Treeview.Notes is notes.hpp and notes.cpp: the tree of notes, with the
-- address of each object and the raw pointer to its parent, and the stream operators `write` and
-- `read`. Treeview.NotesModel is notesmodel.hpp and notesmodel.cpp: `index`, `parent` and
-- `row_count`, in Names the data of an object, in Edit the members that insert and remove rows, and in
-- Drag mimeData and dropMimeData. A step
-- that follows a null or dangling pointer, or leaves the range of a vector or an int, has no result.
--
-- Utils models utils/src/file_descriptor.cpp: the reads and writes in one piece and in chunks, over
-- the results of the system calls, and Utils.Hex is utils/src/hex.cpp, whose proofs are in Utils.Hex.Text.
--
-- Et models et/src. Et.Naive is naive_vector.hpp, an overload of each operator for each kind of operand,
-- over the memory of Et.Memory in which results may be written over operands; Et.Templates is
-- et_vector.hpp: the nodes, their size, their elements and the conversion to a vector. Loop, NaiveSpec,
-- NaiveValue and TemplatesSpec hold the lemmas of Equivalence.
--
-- BlockScene models block-scene/src. BlockScene.Ports is port.cpp, connection.cpp and setIOs of
-- block.cpp: the live ports and connections with their pointers, the mouse events of a port and the
-- destructors. Children of Ports: Linked (the pointers agree), Deleted, Removed, Ios and Resized (deletion
-- and setIOs), Dragged, Moved, Released, Joined and Gesture (the mouse), and Tests.
-- BlockScene.Properties is blockpropertiesmodel.cpp: `set_data`, `data_of` and the counts.
--
-- GuiProgress models gui-progress/src: FileCopier.copy_file is copyFile, its loop
-- copy_blocks over what the file system does; Progress holds the proofs. GuiProgress.CopyWidget is the
-- button, `done` and closeEvent of copywidget.cpp.
--
-- Anf models anf/src: Anf.anf is anf of anf.cpp, on a memory of bits, and Anf.Avx2.anf_avx2 is that of
-- anf_avx2.cpp, over a record of its instructions, for memory that is aligned as it assumes. Children of Anf: Loops (the rule of a loop), Stages (within a
-- word), Polynomial (what the coefficients mean), Blocks and Normal (beyond a word), and Transform.
--
-- InterprocessCopy models the protocol of interprocess-copy/src/main.cpp, a parent that sends data to its child
-- over shared memory, a pipe and process_vm_writev: `iterate` is the body of a benchmark's loop up to its first
-- blocking call, `dispatch` the switch of the child's loop, and Step what one process does next, so that a
-- history is any interleaving; the pipe holds `capacity` bytes. `op|n` is a sum, since n has 32 bits. Children: Modes (where both are), Steps,
-- Progress and Tests.
--
-- Geohash models geohash/src/mainwidget.cpp: every slot of the widget, a retry for a reply that is no double
-- included, and histories of its signals. Dates, the hash and the arithmetic of double are the record Qt.
-- Children: Requests (how many are sent), Replies (what a series of replies leads to) and Tests.
--
-- Prelude holds what the parts share: native numbers, Boolean tests and lists.
--
-- Bounds and fuel. std::size_t counts of the chat wrap at 2 ^ 64. An int of the notes is a word of 32
-- bits and its overflow has no result. `read` of the notes takes fuel for the depth of the folders: for
-- a tree that was written, its depth is enough, as the result on it says. The loops over chunks are
-- recursions on the results of the system calls. The fuel of a loop of Anf is one more than its bound, which is
-- enough for its rounds, as the results on it say.
--
-- Not modelled: Qt, Boost, the C++ library and the system, whose calls are arguments and parameters
-- (the record `Qt` of Treeview.Notes for QDataStream); logging and painting; and the programs that are
-- left out, among them item-models. Of the programs above: in select
-- the listener, in gui-progress the dialogs, in block-scene the positions, the other
-- models and the window, in interprocess-copy knem and the failures of system calls, in treeview moveRows and the window.
pub mod Anf
pub mod BlockScene
pub mod Chat
pub mod ChatSession
pub mod Et
pub mod Geohash
pub mod GuiProgress
pub mod InterprocessCopy
pub mod Prelude
pub mod Select
pub mod Treeview
pub mod Utils
