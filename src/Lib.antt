-- ===== src/Lib.antt =====
-- Project Chronos Engine: the file formats and the recovery link of the editor for the PC Engine Mini.
--
-- The editor reads and writes two container formats of the console and migrates its save files, and the recovery tool
-- talks to its boot ROM over USB:
-- * Psb models the crate editor/crates/m2-psb, a binary format for trees of values. Psb/Value is
--   src/value.rs (IndexMap is a list of fields in insertion order); Psb/Emit, Psb/Writer and Psb/File are
--   src/writer.rs: the encodings of numbers, the phases `collect` and `prepare` with the token tree, and the file with
--   its header; Psb/Trie is src/trie.rs; Psb/Scan, Psb/Reader and Psb/Parse are src/reader.rs: the
--   reads of numbers, the token tree, and the header with its tables. Psb/Canon says what a value becomes when it
--   is written and read: fields sorted by name, streams numbered by their place; Psb/Contents lists the streams that a
--   value has.
-- * Mzs models the crate editor/crates/m2-mzs, an archive of one compressed file under a keystream:
--   Mzs/Twister is src/mt19937.rs, with every index of a draw checked in Mzs/Twister/Bounds, and Mzs/Archive is src/lib.rs.
-- * Fel models the crate recovery/crates/sunxi-fel: Fel/Protocol is src/protocol.rs, the messages and
--   their bytes; Fel/Discovery and Fel/Device are src/device.rs with src/error.rs: the state and the opening of a
--   device, and the operations over a USB link. Fel/Waiting has the two loops that wait for a device, on what each turn
--   lists and reads from the clock.
-- * Recovery models the crate recovery/crates/pce-recovery: Recovery/Partitions is src/partitions.rs, and
--   Recovery/Image and Recovery/Image/Copies are src/image.rs: the choice of an image in a file, and the two loops that
--   copy it, each with its own round.
-- * Saves models editor/crates/m2-publish/src/save_format.rs: Saves/Metadata the checks of the bytes of a save and of
--   its metadata, Saves/Disk the calls of the operating system, Saves/Journal the validation of a pair and
--   `recover_state_pair`, Saves/Migration the staging of a new pair, and Saves/Migration/Slots the operations that use
--   it. A step takes the files and a list of fates, one for each call: the call works, fails and leaves the files as
--   they are, or the process dies before it. A write is a call for each byte, so that it may leave any part of its
--   bytes. No other process writes, and a directory is present, absent, a link, or something else.
-- Prelude has the helpers that all of these share. The modules below a component hold its lemmas, and each
-- module named Runs its concrete runs.
--
-- Numbers are natural; an operation on a machine word has its remainder written out, an i64 is an integer with a range,
-- and an f64 is its 64 bits. A read takes the bytes of the file and the position and returns a value with the next
-- position, an error, a panic, or `stuck` where fuel runs out. In Psb/Writer, Psb/Trie, Psb/File and Mzs/Twister/Bounds
-- none is a panic: an index out of range or a name that is missing. In Mzs/Twister a read out of range gives 0.
--
-- Fuel: `read_token` runs on one level of nesting more than the file has bytes, which is enough since
-- each token takes a byte before its children. The walk up the key tree has a fuel of its own, since the source
-- has no bound there. The loops of the keystream, of the chunks of a USB transfer and of the slot search
-- run on the count of bytes or slots they pass, and the packing
-- of the trie on the count of its nodes. The loops that copy an image run on fuel: a reader may be interrupted
-- again and again; the size and a bound of the interruptions are enough.
--
-- Parameters: the conversions between f32 and f64 (Floats), the replacement of invalid UTF-8, MD5, zstd, the USB stack,
-- the JSON of a journal, the names of temporary files, the ZIP library, the reader and the writer of an image, the clock.
-- What is asked of them is named in the theorems' hypotheses: that a narrowed float has 32 bits, that a zstd
-- frame begins with its magic number and decodes to what was encoded, that a link takes and acknowledges transfers, that a
-- digest tells the old content of a file from the new, that a temporary file is none of the files at hand, that a
-- reader is interrupted finitely often.
--
-- Not modelled: the display of values as JSON, command lines, power cuts that lose what was not flushed, names of
-- journal members with a separator at the end, paths without a parent, and the
-- rest of the program (publishing, importing, the applications' windows, the code that runs on the console).
pub mod Prelude
pub mod Psb
pub mod Mzs
pub mod Fel
pub mod Recovery
pub mod Saves
