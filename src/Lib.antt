-- ===== src/Lib.antt =====
-- Models and proofs for YATPOS, a distributed file system (YAMA FS) with map and reduce jobs, in C.
--
-- Parts. FileSystem keeps the files, their blocks and the data nodes; DataNode stores blocks; YAMA
-- plans jobs over the nodes that hold a file's blocks; Master drives a job; Worker runs its stages.
-- All stand on Shared: lists (mlist.c), serialised containers (serial.c), packets and files.
--
-- - Base: numbers, tests, lists, signed integers and the law of `|` that the models share.
-- - Serial: Shared/serial.c. A container `t_serial` is the record `Serial`; `serial_add` and
--   `serial_remove` take a format as a list of letters with their arguments (`Arg`, `Code`).
--   Serial/Word has the integer codecs, Serial/Types the ranges of what is read,
--   Serial/Growth and Serial/Endless the buffer below and above 2 ^ 31 bytes.
-- - YFile: Shared/yfile.c, `t_yfile` and `t_block` with their form on the wire.
-- - Stage: Shared/struct.c and YAMA/src/struct.c, the stages and the node list on the wire.
-- - Packet: Shared/protocol.c and `recvall` of Shared/socket.c, packets on a connection.
-- - Plan: YAMA/src/funcionesYAMA.c, `planificar`, the clock over the nodes that hold a file's blocks.
-- - Carga: YAMA/src/funcionesYAMA.c, the loads of the nodes with the shares of the jobs.
-- - Estados: YAMA/src/funcionesYAMA.c and YAMA/src/server.c, the table of states of the stages, and what
--   the server reads off it.
-- - Nodes: FileSystem/src/nodelist.c with Shared/bitmap.c, the data nodes and their free blocks. The
--   bit array, the replies of nodes, `rand` and the rates are parameters.
-- - Text: Shared/mstring.c and the parts of Shared/path.c that work on texts. A text is the list of its
--   bytes without the NUL; NULL, where a function takes it, is `none`.
-- - Dirtree: FileSystem/src/dirtree.c, the table of directories. Dirtree has the searches and
--   `dirtree_add`, Dirtree/Change the operations that change or remove entries.
-- - Blocks: FileSystem/src/filetable.c with `file_btraverse` and `file_ltraverse` of Shared/file.c, how a
--   file is cut into blocks and put together again. `partition` stands for the traversal that
--   `partition_text_file` and `partition_bin_file` share, `handler` for their two handlers.
-- - Data: Shared/data.c, the blocks in the data space of a node.
-- - MList: Shared/mlist.c, doubly linked lists over an explicit heap. MList/Sort has the merge sort,
--   MList/Traverse the operations that go over a list by `traverse_nodes`. Where a list is made, its
--   nodes come from the addresses that `malloc` will return.
-- - Files: FileSystem/src/filetable.c, the table of files, over the table of directories. Files/Blocks
--   has the copies of the blocks on the nodes, and the messages to the nodes.
-- - Jobs: YAMA/src/server.c, how a job gets its loads and what is built for each stage. Jobs/Encargado
--   is the choice of the node in charge of a global reduction, over lists in the heap, with Jobs/Primero
--   for the first element of a sorted list.
--
-- Bounds and fuel. Loops that C does not bound run on fuel: doubling a buffer takes the bytes needed
-- as fuel, enough for 2 ^ 31 of them, unpacking until a container is empty takes one more than its size, and a walk along a list
-- takes one more than its length. The planner's loop takes two laps of its clock for each block, and
-- one round; receiving takes one round for each byte, counting substrings one for each byte of the text,
-- and putting a piece of a file together one for each of its bytes. The theorems show that this is enough.
-- Removing the children of a directory takes one round for each level below it, so one more than the
-- entries of the table is enough where no directory is below itself; making its path takes one for each
-- entry. Sorting a list takes one more than its length at the first level of the recursion, and one less
-- at each level below; traversing it takes one more than its length. Block numbers go up to 2,047, as
-- their places are of type `int`. An `int` has 32 bits, and so has a `size_t`.
--
-- Not modelled: floats (the letters `f` and `d`), the mutexes, setting up connections, threads, and
-- the file system of the machine; of the program, the entries of the files and directories on disk, the
-- bitmaps of nodes that are there already,
-- copying files from and to the machine, the end of a job by an error and replanning in YAMA, the
-- console and the loops of the processes.
pub mod Base
pub mod Carga
pub mod Dirtree
pub mod MList
pub mod Nodes
pub mod Packet
pub mod Plan
pub mod Serial
pub mod Stage
pub mod Text
pub mod YFile
pub mod Blocks
pub mod Estados
pub mod Files
pub mod Jobs
pub mod Data
