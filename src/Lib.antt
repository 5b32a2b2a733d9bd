-- ===== src/Lib.antt =====
-- A verification library for aerc, an email client for the terminal.
--
-- The program. The user types keys; config/binds.go finds the binding, which runs a command of commands.
-- Commands change the widgets of app and lib/ui (tabs, lists, text inputs) and send actions to the
-- worker of an account, a goroutine that speaks with the mail server; the middleware of
-- worker/middleware renames what passes between the two. The IMAP worker of worker/imap keeps the map
-- from sequence numbers to UIDs. The parts modelled here are those with a state or an algorithm of
-- their own. The message store is where most of them meet: it moves its selection over an iterator, tells
-- the marker of every move, gives the headers it receives to the thread builder and takes the order of
-- the list from it. The expunge handler uses the sequence map.
--
-- The files, and what each models:
--   Prelude           tests, lists, keys, maps and integers that all share; `Outcome`, code that may panic
--   Imap/SeqMap       worker/imap/seqmap.go (SeqMap.Initialize, Size, Get, Put, Snapshot, Pop, sort)
--   Imap/Expunge      worker/imap/expungehandler.go (NewExpungeHandler, PopSequenceNumber,
--                     IsExpungingForDelete), and the replies of two kinds of servers
--   Ui/Tabs           lib/ui/tab.go (Add, Remove, Replace, Select and the other choices, the history)
--   Ui/Tabs/Moves     lib/ui/tab.go (SelectOffset, MoveTab, PinTab, UnpinTab)
--   Ui/TextInput      lib/ui/textinput.go (insert, wordStart, nextWordStart, the deletions, ensureScroll)
--   Ui/Scrollable     app/scrollable.go (EnsureScroll, checkBounds, Align)
--   Ui/Stack          lib/ui/stack.go (Push, Pop, Peek)
--   Config/Binds      config/binds.go (MergeBindings, GetBinding, GetReverseBindings, contextual)
--   Config/Keys       config/binds.go (keyNames, FormatKeyStrokes, ParseKeyStrokes, ParseBinding)
--   Marker            lib/marker/marker.go (all methods of the controller)
--   Worker/Folders    worker/middleware/foldermapper.go (the folder mapper and folderMap)
--   Message/Iterator  lib/iterator (FixBounds, WrapBounds, MoveIndex and the iterators)
--   Message/Sort      lib/sort/sort.go (GetSortCriteria, parseSortField)
--   Message/Threads   worker/types/thread.go (Walk, InsertCmp, Uids, getMaxValue, SortThreadsBy)
--   Message/Builder   lib/threadbuilder.go (cleanRefs, buildTree, Threads, RebuildUids)
--   Message/Info      models/models.go (MessageInfo, MsgId, InReplyTo, References), and merge
--   Message/Store     lib/msgstore.go: the list and the selection (Uids, Select, NextPrev, the results)
--   Message/Store/Requests  the same file: what is asked of the worker (FetchHeaders, Delete, Move, Sort,
--                     Search and the others) and the callbacks, with SortBy of lib/sort/sort.go
--   Message/Store/Update    the same file: Update, case by case
--   Message/Store/Fold      the same file: doThreadFolding on one thread
--   Message/DirStore  lib/dirstore.go (the two maps and the order)
--   Commands/History  commands/history.go (Add, Prev, Next, Reset)
-- A file's children hold what is proved of it, and Tests the runs at concrete inputs.
--
-- How state is modelled. A struct is a record, a method a function from the record to the record and the
-- result. A method that may panic returns an `Outcome`. A Go map is an association list with each key
-- once; what is proved holds for every order, since a `range` loop visits the keys in any. The heap is
-- modelled where a property depends on it: in Marker, whose `Remark` makes two fields one map, and by
-- the addresses of tabs in Ui/Tabs. Mutexes are left out where a method holds the lock from start to
-- end; `Get` of the sequence map does not, and is two steps. Those of the message store are left out, so
-- that its model is of calls one after another.
--
-- Numbers. An `int` that may be negative is a ℤ of Prelude/Int without overflow; lengths and indices
-- that may not are native ℕ; sequence numbers are below 2 ^ 32, and wrap around.
--
-- Fuel. The loop that squeezes stars in folder names runs on the length of the name, since each round
-- shortens it, and the loop of a client over an iterator on one round more than there are entries, which
-- the result on it shows to be enough. All other loops are structural.
--
-- Not modelled: drawing, mouse and key events, network and file input and output, logging, and the
-- calls of other libraries (the terminal library vaxis, go-imap, regexp: where a definition needs them
-- they are parameters). lib/jwz is a copy of a third-party library; the threading it gives is a parameter
-- of the thread builder. The filter of the message store and the layout grid are not modelled either.
pub mod Prelude
pub mod Imap
pub mod Ui
pub mod Config
pub mod Marker
pub mod Worker
pub mod Message
pub mod Commands
