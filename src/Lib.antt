-- ===== src/Lib.antt =====
-- A verification library for the Couchbase Python client, whose packages are couchbase, couchbase_core and
-- acouchbase. The client is a layer of Python over a C extension on libcouchbase: Python builds the text of
-- a request from options, the extension sends it and calls back with rows, and Python hands the rows on. The
-- library models the layer of Python that decides something, each part as functions on its state.
--
-- How the parts interact: a view (couchbase_core/views/iterator.py) sends the options that a view query
-- (couchbase_core/views/params.py) encodes; a request for N1QL (couchbase_core/n1ql.py) sends a query that may
-- wait for the mutations of a mutation state (couchbase/mutation_state.py); a request for N1QL indexes
-- (couchbase_core/_ixmgmt.py) sends JSON texts. Each of the three reads rows from an object of the extension,
-- and the asynchronous classes get the same rows by callbacks (couchbase_core/asynchronous/rowsbase.py,
-- acouchbase/iterator.py). The transcoder (couchbase_core/transcoder.py) stands between documents and bytes,
-- and every operation of a collection converts its options by forward_args (couchbase/options.py).
--
-- Where each part is modelled:
--   Base: what the parts share. Base/Outcome has Python's exceptions as values: a method is a function
--   from an object to a result and the object after it, so that what a call wrote before it raised is
--   seen. Base/Value has the Python values that reach the code, Base/Dict dicts in insertion order,
--   Base/Decimal, Base/Quote and Base/Json the parts of str, urllib.parse.quote and json.dumps that the client
--   uses, Base/Reply the answers of the server, and Base/Emitted generators.
--   Views/Handlers, Views/Query, Views/Encode, Views/Update: couchbase_core/views/params.py. QueryBase is a
--   record of its fields with its class; the handlers of options, _set_common, _set_range_common, update,
--   from_any, encoded and _long_query_encoded have functions of their names. Views/Cache, Views/Options,
--   Views/Ranges, Views/Spelling hold what is proved of them.
--   Views/Row, Views/View: couchbase_core/views/iterator.py. View is a record with the answers that the server
--   will give; __iter__ with _process_payload is drain and iterate. Views/Results, Views/Reported and
--   Views/Accepts hold its theorems.
--   N1ql/Query and N1ql/Request: couchbase_core/n1ql.py, _N1QLQuery and N1QLRequest in the same way, with
--   theorems in N1ql/Options, N1ql/Rows and N1ql/Once.
--   Mutation/State: couchbase/mutation_state.py, with theorems in Mutation/Latest.
--   Transcoder/Format and Transcoder/Convert: couchbase_core/transcoder.py, with theorems in
--   Transcoder/Flags and Transcoder/RoundTrip. The constants of the formats are those of src/pycbc.h.
--   Ixmgmt/Index and Ixmgmt/Request: couchbase_core/_ixmgmt.py, with theorems in Ixmgmt/Listed and
--   Ixmgmt/Property. Ixmgmt/Definition and Ixmgmt/Manager: QueryIndexManager of couchbase/management/queries.py, with
--   theorems in Ixmgmt/Defined and Ixmgmt/Dropped.
--   Async/Stream: couchbase_core/asynchronous/rowsbase.py with acouchbase/iterator.py, over any interleaving of
--   callbacks and consumer (Async/Order, Async/Complete). Async/Events: couchbase_core/asynchronous/events.py.
--   Iops/Select: couchbase_core/iops/select.py, with theorems in Iops/Watched and Iops/Timers.
--   Wrapper/Rows: IterableWrapper of couchbase_core/__init__.py, with its theorem in Wrapper/Again.
--   Management/Roles: the texts of roles in couchbase/management/admin.py and couchbase/management/users.py,
--   with their theorem in Management/RoleText.
--   Subdoc: couchbase_core/subdocument.py and couchbase/subdocument.py, with the projections in Subdoc/Project.
--   Management/Documents: design documents and ViewIndexManager of couchbase/management/views.py, with the names in
--   Management/Documents/Names, a server that keeps documents in Management/Documents/Asked and what the operations do to it in
--   Management/Documents/Kept and Management/Documents/Published.
--   Collections: Scope and CBCollection of couchbase/collection.py, with what it uses of
--   couchbase_core/client.py. Collections/Operations has the operations on one document, Collections/Structures
--   the decorator _dsop with maps and lists, Collections/Sets and Collections/Queues the two structures with loops.
--   Collections/Passed shows what the structures send, Collections/Served what they rely on of the server, and
--   Collections/Lists, Collections/Fifo, Collections/Race and Collections/Retry hold the theorems.
--   Collections/Counters is BinaryCollection, with theorems in Collections/Deltas and Collections/Twice.
--   Designs: the design documents of couchbase_core/bucketmanager.py, with the operations in Designs/Operations
--   and theorems in Designs/Poll and Designs/Ends.
--   Exceptions: ErrorMapper and NotSupportedWrapper of couchbase/exceptions.py with the mappings of
--   couchbase/management, and split_results in Exceptions/Split; theorems in Exceptions/First and the child
--   modules of Exceptions/Split.
--   Options/Forward, Options/Bounded: couchbase/options.py, with theorems in Options/Passed and
--   Options/Again.
--   The Tests modules run the definitions and apply each theorem at concrete data.
--
-- What stands for code outside the repository: the answers of the server are a list, and a loop that reads
-- beyond it is blocked, which is a result of its own; so these loops are structural recursions and need no
-- fuel. Decimal digits have fuel one more than the number. set_remove has fuel for two rounds, and queue_pop takes
-- its fuel as an argument; their theorems say how many rounds are enough. The
-- polling of design documents has one round of fuel for each microsecond that it waits, and one more. The bucket of the C extension, with the
-- server behind it, is a function from a call and its keyword arguments to an answer, and the documented
-- sub-document operations are the laws of Collections/Served; the documented REST interface for design documents is the
-- record of laws in Management/Documents/Asked. json, pickle and UTF-8 are
-- parameters of the transcoder, since its subclasses may override them. A float is given by what the code
-- observes of it: its texts, its integer part and whether it is zero; a timedelta likewise.
--
-- What is not modelled: messages of exceptions, warnings and reprs; keys of dicts that are not texts; a
-- query's keyword that overwrites a method or a private field, which is an error of its own in the models; the
-- sharing of a mutation state between a query and later changes of it; a comparison with NaN; iterations that
-- are broken off, except where they are actions of a consumer; the remaining modules of the client, among
-- them clusters, search, results, and management other than the
-- texts of roles, design documents, query indexes and the mapping of errors, and the C extension.
pub mod Async
pub mod Base
pub mod Collections
pub mod Designs
pub mod Exceptions
pub mod Iops
pub mod Ixmgmt
pub mod Management
pub mod Mutation
pub mod N1ql
pub mod Options
pub mod Subdoc
pub mod Transcoder
pub mod Views
pub mod Wrapper
