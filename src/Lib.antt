-- ===== src/Lib.antt =====
-- allvm-tools bundles LLVM bitcode in ZIP files ("allexes"). It reads and writes them with
-- libs/archive-rw, its own fork of libzip, and this library models that fork, part by part.
--
-- Buffer.antt is libs/archive-rw/zip_buffer.c: a bounded cursor over bytes. Everything that parses or
-- writes headers goes through it, so its failures are sticky: the record has the `ok` of the
-- structure, and each function returns the new buffer beside its result. A pointer into the data is an
-- index; NULL is `none`.
--
-- ExtraField.antt (lists of fields, merging, lookup and deletion) and ExtraField/Wire.antt (parsing
-- and writing) are libs/archive-rw/zip_extra_field.c, on top of the buffer. A linked list is a list, a
-- function that returns the new head returns the new list, and the place where bytes are written is a
-- parameter. Functions that allocate take the number of allocations that still succeed (Run.antt),
-- which covers every pattern of failures, since each of them gives up at the first. Run.antt also has
-- the error codes of libs/archive-rw/zip.h, and Flags.antt its flag words, a record of the bits that
-- the code tests.
--
-- Hash.antt and its children Hash/Insert.antt, Hash/Remove.antt and Hash/Capacity.antt are
-- libs/archive-rw/zip_hash.c, the table from file names to archive entries. The chains are lists; a
-- pointer to an entry is the entry that the search finds, which is the only one of its name in a
-- well-formed table; an index of -1 is `none`. Each call of malloc and calloc has an argument that says
-- whether it succeeds, and what new memory holds is an argument too. The fill factors, which the source
-- computes with doubles, are integer tests, exact for tables whose size is a power of two. Hash/Map.antt
-- has the abstract view of the table, a map from names to an original and a current index.
--
-- Utf8.antt is libs/archive-rw/zip_utf-8.c: guessing the encoding of names, and conversion from Code
-- Page 437. Utf8/Guess.antt has the forms of UTF-8, by the ranges of their bytes, that the guess is compared with; they
-- let overlong forms and surrogates pass, as the code does. Str.antt is
-- libs/archive-rw/zip_string.c: names and comments, whose encoding is guessed and whose conversion is
-- kept when they are read.
--
-- Dirent.antt, Dirent/WinzipAes.antt and Dirent/Zip64.antt are parts of libs/archive-rw/zip_dirent.c:
-- the record of an entry, the version that it needs, and the fields for large sizes and for AES
-- encryption, each as the part of _zip_dirent_write that makes it and the part of _zip_dirent_read
-- that reads it. Dirent/Time.antt has the DOS times of headers.
--
-- Source.antt and Source/Calls.antt are the functions that the archive calls on a source
-- (libs/archive-rw/zip_source_call.c, zip_source_open.c, zip_source_close.c, zip_source_read.c,
-- zip_source_seek.c, zip_source_tell.c, zip_source_begin_write.c, zip_source_commit_write.c,
-- zip_source_rollback_write.c, zip_source_write.c, zip_source_remove.c and their like). A source is a
-- record with the fields of zip_source_t; its callback is a parameter, a function from a command and
-- the user data to a reply and new user data, and for a layered source the data holds the source below
-- too. Source/Calls/Stream.antt has what a callback that reads from a sequence of bytes gives,
-- and Source/Calls/States.antt what becomes of the write state.
--
-- Source/Memory.antt and Source/Memory/Growth.antt are libs/archive-rw/zip_source_buffer.c, a source in
-- memory whose bytes lie in fragments, and zip_source_seek_compute_offset of zip_source_seek.c. A
-- fragment is a list of bytes; an array that new memory extends has cells of an arbitrary function; a
-- read outside of an array is `none`. The size of new fragments, which the source lets a build set, is
-- a parameter. Source/Memory/Reads.antt has the invariant of a buffer and its contents as one list.
--
-- Io.antt is libs/archive-rw/zip_io_util.c, whole reads and writes, from a buffer or from a source in its
-- place, strings that are read and written so, and the buffer that is filled from a source; zlib's crc32
-- is a parameter.
--
-- Archive.antt and its children are the operations of an archive on its entries: what their directory
-- entries and names are, and where a name is located (Archive.antt, Archive/Stat.antt), new entries
-- (Archive/Names.antt), names (Archive/Naming.antt, libs/archive-rw/zip_set_name.c and zip_file_rename.c),
-- deleting and restoring (Archive/Updates.antt), new data (Archive/Replacing.antt,
-- libs/archive-rw/zip_file_replace.c and zip_file_add.c), times, comments and attributes
-- (Archive/Attributes.antt), the encryption of entries and new directories (Archive/Encryption.antt,
-- libs/archive-rw/zip_file_set_encryption.c and zip_dir_add.c), and the flags, comment and prefix of the archive
-- (Archive/Settings.antt). They
-- work on the table of Hash.antt and the strings of Str.antt; an operation returns its result and the
-- archive, and a Room says what its allocations give. A source is a number, and the calls of
-- zip_source_free are listed. Directory entries are values: a string that the changes share with the
-- original is copied. A body with many returns is a chain of small functions, each from one call on to
-- the end. Archive/Inv.antt has the invariant that keeps the table of names in step with the entries.
--
-- ZipArchive.antt and ZipArchive/Allexe.antt are libs/archive-rw/ZipArchive.cpp and libs/all/Allexe.cpp,
-- ALLVM's archive and the container of its modules, on top of the operations above. What zip_open,
-- zip_source_buffer, zip_source_stat and LLVM give is a parameter.
--
-- Cache.antt is libs/Cache/JITCache.cpp and the names of libs/Cache/StaticBinaryCache.cpp: where the code
-- that was compiled for a module is kept. The files are a function from paths; the numerals of checksums
-- and the file name of a path are LLVM's, and parameters.
--
-- Machine numbers are natural numbers with the wrap of 16, 32 and 64 bits written out. Loops that are
-- not structural run on fuel: the loop of the parser of extra fields and that of the guess take the
-- number of bytes, as each round consumes one, the loop of zip_source_read takes the number of bytes to
-- read, as each round gets one or is the last, the search for a fragment takes a round more than there
-- are fragments, the doubling of a capacity takes the capacity that is needed, and the loop that halves
-- the size of the table of names takes 32 rounds, as the size has 32 bits.
--
-- Not modelled: memory that is only released (the _free functions), zlib and the file system, the
-- rest of the headers and the directory of archives (libs/archive-rw/zip_dirent.c, zip_open.c,
-- zip_close.c but for _zip_changed), clones of a source in memory and its
-- dispatch of commands, the other callbacks of sources (zip_source_window.c, zip_source_filep.c and
-- their like), and the rest of the C++ code in libs and tools, which works over
-- LLVM. Base.antt has the tests on numbers, the
-- functions on lists and the lemmas that the parts share.
pub mod Base
pub mod Buffer
pub mod Run
pub mod Flags
pub mod ExtraField
pub mod Utf8
pub mod Hash
pub mod Str
pub mod Dirent
pub mod Source
pub mod Io
pub mod Archive
pub mod ZipArchive
pub mod Cache
