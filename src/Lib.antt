-- ===== src/Lib.antt =====
-- cifscp: a client for the CIFS (SMB) file sharing protocol, as a library (libcifs/), a copying and
-- listing program (cifscp.c), and smaller programs (cookie.c, cifs_spider.c, fusecifs.c).
--
-- The parts, from the wire up, and the files that model them:
--
--   Memory       One allocated block as a function from offsets to bytes, with the little-endian
--                words that the packed structures of libcifs/struct.h read and write in it. Memory.Frame
--                has the lemmas on stores that do not meet.
--   Cstring      The calls of <string.h> and <stdlib.h> that the program makes on C strings.
--   Codepage     libcifs/codepage.c: cifs_cp_buf, and cifs_cp_bufa in Codepage.Growing. iconv is a
--                parameter; IsIconv and IsRoomy state what its manual page promises, and
--                Codepage.Escape.table_iconv is a function that keeps it.
--   Buffer       libcifs/buffer.h and buffer.c: cifs_buf_s as four offsets into a block, and the writers.
--   Packet       cifs_header_s, cifs_packet_parse, cifs_packet_unparse, cifs_packet_setup and
--                cifs_packet_errno of libcifs/transport.c.
--   Transport    cifs_send, cifs_recv and cifs_recv_skip_sock of libcifs/transport.c.
--   Raw          cifs_recv_size and cifs_recv_raw.
--   Nbt          cifs_nbt_name and cifs_nbt_session.
--   Connect      cifs_connect_s, cifs_connect_new, cifs_request and cifs_recv_async; Connect.Polling.poll
--                is a caller that repeats cifs_recv_async as long as it says EAGAIN.
--   Transact     libcifs/transact.c: the answer of a transaction, put together from its messages.
--                Find.trans_draft is cifs_trans_req.
--   Proto        libcifs/proto.c: Session (negotiation, session, trees), Files (opening, reading,
--                writing, removing), Split (reading and writing in halves, cifs_connect).
--   Find         libcifs/find.c: searches, cifs_readdir, cifs_stat, cifs_scandir; Find.Calls also has
--                cifs_mkdir of libcifs/proto.c.
--   Rap          libcifs/rap.c and rpc.c: the lists of shares, servers and domains.
--   Uri          uri.c: addresses of shares.
--   Flow         flow.c: the meter that measures and slows a transfer.
--   Human        human.c: cifs_decode_hsize and cifs_htime.
--   Copy         cifs_download_file and cifs_upload_file of cifscp.c, behind the calls that open files.
--   Walk         cifs_get_size_dir, cifs_calc_size and cifs_list_dir of cifscp.c, and cifs_dump_dir of
--                cifs_spider.c.
--   Trees        cifs_download_file, cifs_download_dir, cifs_upload_file and cifs_upload_dir of cifscp.c
--                over a connection and the local disk, which is the interface Trees.Disks.Local.
--                Trees.Loops and Trees.Refined link the loop here to the one of Copy, which takes the
--                server as a function; Trees.Served follows a whole download.
--   Program      main of cifscp.c behind getopt, with cifs_list_node and is_directory: what the options
--                and the operands make it list, download or upload. Getting a connection is a
--                parameter, the disk is the interface of Trees.
--   Spider       main and cifs_dump of cifs_spider.c.
--   Cookie       cookie.c: a remote file as a stdio stream.
--   Fuse         fusecifs.c: the path parser, the lists of hosts and shares, and the operations that
--                FUSE calls (Calls, Serve), over the interface Fuse.Interface.Library.
--   Base, Tests  Shared names and lemmas; runs at concrete inputs.
--
-- A pointer is an offset into its block. A write or a read that leaves a block, which C leaves
-- undefined, is a result of its own (none in the writers, fault in an Outcome), so that a theorem
-- can say that it does not come about. `int` values that may be negative are ℤ; all other numbers
-- are ℕ, cut to their width where they are stored. malloc is taken to succeed, and what a fresh
-- block holds is an argument. The functions that call each other in the sources call each other
-- here: a request is built in the packet of the connection, Connect.request sends it and awaits the
-- answer, Transact and Find call that, Walk calls Find. errno is part of the outcome of a call that
-- fails (Why).
--
-- A socket is a script: what recv will find, in chunks, and what send will answer. Loops over recv
-- run on fuel, and so do loops that a server can keep going: directories that do not end, answers
-- that are never complete; a walk over a tree has one number for its depth and its loops. The
-- theorems say which fuel is enough: for a receive more than the length of the stream that is left,
-- for a transaction a round for each message, for a copy a turn for each byte. cifs_cp_buf needs no
-- fuel beyond the length of its input, cifs_cp_bufa two rounds for each byte and 18. Running out of
-- fuel is a result of its own (hang, no_end, copy_hang) that no theorem counts as success.
--
-- fusecifs.c is written against an earlier library, with calls that the sources no longer have:
-- there the library is an interface, whose functions are arguments, and Tests.Mounts.small is one
-- of them.
--
-- Not modelled: cifs_hsize, which prints floating-point numbers; logging (libcifs/debug.c); the
-- tables of constants (libcifs/smb.h, trans2.h, doserr.h, nterr.h), of which the models write the
-- numbers that the code uses; the calls that only reach the system (cifs_resolve,
-- cifs_connect_sock, close and free); fclose and main of cookie.c; usage of cifscp.c and the
-- progress that copies print. The formats of printed lines are left out: a walk prints a list of
-- lines, each with its values.
pub mod Base
pub mod Memory
pub mod Codepage
pub mod Buffer
pub mod Packet
pub mod Transport
pub mod Cstring
pub mod Uri
pub mod Flow
pub mod Human
pub mod Copy
pub mod Raw
pub mod Nbt
pub mod Connect
pub mod Transact
pub mod Proto
pub mod Find
pub mod Rap
pub mod Cookie
pub mod Walk
pub mod Fuse
pub mod Trees
pub mod Program
pub mod Spider
mod Tests
