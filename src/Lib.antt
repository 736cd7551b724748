-- ===== src/Lib.antt =====
-- xmsgapi
--
-- A model of the Squish part of the message base library, src/sq_*.c with src/putword.c, and of
-- the control information and the dates of messages in src/msgapi.c and src/stamp.c, with the
-- proofs about them. A Squish base is a data file `.sqd`, which starts with a header and holds the
-- messages in frames that are linked both ways, and an index file `.sqi` with a record for each
-- message. Freed frames form a second chain in the data file, from which new messages are served.
--
-- The parts, each with the file that models it:
--   Base, Base/*         lists, tests, machine words and commands that the other files share
--   File                 an open file of the C library: lseek, read, write, setfsize
--   Putword              src/putword.c and the macros of src/putword.h
--   Squish/Header        struct _sqhdr; read_sqhdr and write_sqhdr of src/sq_help.c
--   Squish/Sqidx         struct _sqidx; read_sqidx and write_sqidx of src/sq_idx.c
--   Squish/BaseHeader    struct _sqbase; read_sqbase and write_sqbase of src/sq_help.c,
--                        _SquishFillBaseHeader and _SquishValidateBaseHeader of src/sq_area.c
--   Squish/Xmsg          XMSG of src/msgapi.h; read_xmsg of src/sq_read.c, write_xmsg of
--                        src/sq_write.c
--   Squish/Area          the state: struct _msgapi, struct _sqdata and HIDX of src/api_sq.h
--   Squish/Frame         _SquishReadHdr, _SquishWriteHdr, _SquishSetFrameNext and
--                        _SquishSetFramePrev of src/sq_help.c
--   Squish/FreeChain     _SquishInsertFreeChain of src/sq_help.c; _SquishProbeFreeChain,
--                        _SquishRemoveFreeChain, _SquishGetFrameEOF and _SquishGetNewFrame of
--                        src/sq_write.c
--   Squish/Index         src/sq_idx.c: the buffer and SidxGet; Squish/Index/Entries has SidxPut and
--                        _SquishAppendIndexRecord, Squish/Removal has _SquishRemoveIndexEntry and
--                        _SquishCloseIndex
--   Squish/Pointers      _SquishGetFrameOfs and _SquishFixMemoryPointers of src/sq_help.c
--   Squish/Uid           src/sq_uid.c
--   Squish/Lock          src/sq_lock.c, with the copies of the header in src/sq_area.c;
--                        Squish/Lock/Users has several users of one base, and
--                        Squish/Lock/Handover the access from one of them to the next
--   Squish/Kill          src/sq_kill.c
--   Squish/Msg           struct _msgh, the list of open messages and the opening of a message of
--                        src/sq_msg.c; Squish/Msg/Create has the creation of a message, and
--                        Squish/Msg/Handles the functions on the list
--   Squish/Reduce        the limits on the number of messages in src/sq_msg.c
--   Squish/Read          apiSquishReadMsg and its parts in src/sq_read.c
--   Squish/Write         apiSquishWriteMsg and its parts in src/sq_write.c
--   Squish/Open          the opening and creation of a base in src/sq_area.c
--   Squish/Close         the closing of a base in src/sq_area.c
--   Squish/Misc          src/sq_misc.c
--   Squish/Hash          src/sq_hash.c
--   Squish/Tests         runs on concrete areas
--   Kludge               CopyToControlBuf, CvtCtrlToKludge, GetCtrlToken, RemoveFromCtrl,
--                        NumKludges and StripNasties of src/msgapi.c
--   Date                 src/stamp.c and src/stricmp.c, with the names of months of src/msgapi.c
-- The files below each of these hold the proofs about it.
--
-- A function of the C code that changes an area is a command, `Area → Run Area A`: `ok` with its
-- result, or `fail` where the code returns FALSE, -1 or NULL; both keep the state as the code has
-- left it. `stuck` is no outcome of the code: it is a loop whose fuel ran out. The rounds are
-- bounded by the end of the file for the walk over the free chain (each frame lies at an offset of
-- its own below it), by the number of records for the binary search, by the number of messages for
-- the loop that deletes the oldest ones, by the size of the file for the loop that shifts the
-- index, and by the length of the text for the loops on kludge lines. The loops on a year have
-- rounds for the whole range of an `int`.
--
-- A function on a message is a command on the message and its area, and one that opens or closes
-- messages on the area with its list of handles. A base that is opened is found on a disk: its two
-- files, or their absence, and whether they can be created. Users of one base have an area each;
-- the file they share is one, and a step is one call of one user of a function of sq_lock.c, or
-- any work in between.
--
-- Numbers are those of a machine whose `long` has 32 bits, as bit patterns with their wrap-around
-- written out; `long` is compared as signed. A file is its bytes, its size, its position and the
-- size up to which the disk lets it grow. What the operating system answers to `malloc` and to a
-- lock is part of the state and does not change while a function runs.
--
-- Not modelled: the tests of handles, `assert`, the retries and the waiting of `_sqlock`, the copy
-- `sqbDelta`, which nothing reads, the list of open areas and SquishValidate (src/sq_area.c), the
-- other two formats (src/api_sdm.c, src/api_jam.c), the rest of src/msgapi.c, which calls one of
-- the formats or parses addresses, patterns (src/patmat.c, which is code of another program),
-- sorting (src/qksort.c, which only the *.MSG areas use), and the system modules, which are system
-- calls.
pub mod Base
pub mod File
pub mod Putword
pub mod Squish
pub mod Kludge
pub mod Date
