-- ===== src/Lib.antt =====
-- kanzi-go: a lossless block compressor. A block of bytes goes through a sequence of byte transforms
-- (v2/transform), then an entropy codec (v2/entropy) writes it to a bit stream (v2/bitstream); the
-- decompressor runs the inverse of each, in reverse order. v2/internal holds shared helpers.
--
-- Files and the code that they are about:
--   Base: native numbers, lists, Go's fixed-width integers, masks and digits, results of running code
--     (`Exec`: a value, a run-time panic, or a loop of the model out of fuel).
--   Internal: Log2, Log2NoCheck (with the table LOG2) and ComputeJobsPerTask of v2/internal/Global.go;
--     v2/internal/Magic.go.
--   Transform.Api, Transform.Interface: ByteTransform of v2/Definitions.go. A call is given the slices and
--     whether they start at the same address; its reply has what was read and written, the error, and
--     `dst` after the call. The interface is a record of the methods with their laws, of which
--     Transform.Zrlt, Transform.Sbrt and Transform.NullTransform are instances.
--   Transform.Sequence: ByteTransformSequence of v2/transform/Sequence.go over any such transforms.
--     `forward_loop` and `inverse_loop` are the loops over the transforms, on a record of the local
--     variables; slices carry their hidden capacity; `dst` is one of the two swapped buffers.
--   Transform.Zrlt: v2/transform/ZRLT.go; `forward_loop` and `inverse_loop` walk the unread part of `src`
--     beside its index. Format describes the code apart from the loops.
--   Transform.Sbrt: v2/transform/SBRT.go; the arrays of 256 entries are functions of a byte.
--   Transform.NullTransform: v2/transform/NullTransform.go.
--   Transform.Factory: GetName and GetType of v2/transform/Factory.go; Packing relates the number of a sequence
--     of transforms to its name.
--   Bitstream: OutputBitStream and InputBitStream of v2/Definitions.go as records of operations and laws,
--     which the entropy code takes as parameters. Reference has streams that meet the laws.
--   Bitstream.Sink, Bitstream.Output: v2/bitstream/DefaultOutputBitStream.go over an io.WriteCloser that is a
--     parameter; Stream says which bits the fields stand for. Array has WriteArray, loop by loop.
--   Bitstream.Source, Bitstream.Input: v2/bitstream/DefaultInputBitStream.go over an io.ReadCloser that is a
--     parameter; Window says which bits are still to be read. Array has ReadArray, loop by loop. AsStream, here
--     and in Bitstream.Output, makes an instance of the interface that the codecs use.
--   Bitstream.File: the file that is written by an output stream and read by an input stream, a parameter;
--     Entropy.NullCodec.Stored and Entropy.Binary.Stored run a codec over both.
--   Entropy.VarInt: WriteVarInt and ReadVarInt of v2/entropy/EntropyUtils.go.
--   Entropy.NullCodec: v2/entropy/NullEntropyCodec.go.
--   Entropy.Factory: v2/entropy/EntropyCodecFactory.go.
--   Entropy.ExpGolomb: v2/entropy/ExpGolombCodec.go, with its tables.
--   Entropy.Predictor, Entropy.Cm: Predictor of v2/Definitions.go as a record of operations and laws, and
--     v2/entropy/CMPredictor.go, its instance; the tables of counters are functions of their indexes.
--   Entropy.Binary: v2/entropy/BinaryEntropyCodec.go for any predictor. Interval describes what a bit does to
--     the interval of the coder and what it emits; Encode, Decode and their like relate the code to it.
--
-- Fuel: the loops of ZRLT take a step for each byte of `src`, and get as many; WriteVarInt gets five
-- rounds, as many as a uint32 has groups of seven bits; the exponential Golomb decoder gets any number
-- of rounds from seven on, as many as a code has zeros; the null codec gets a round for each byte, and
-- takes fewer, and so do the binary entropy codec and the loops of WriteArray and ReadArray, whose fuel
-- follows the bytes or bits that remain; ReadBits gets nine calls, since each but the first finds eight bits.
-- The theorems state that a result is returned, so none of this runs out. Lengths are bounded where the code converts them to 32 or 64 bits.
--
-- Names are lists of their bytes. `strings.ToUpper` of Go's library is a parameter (`Strings` of Base.Names), with
-- its effect on ASCII where that is needed.
--
-- Not modelled: the other transforms and entropy codecs, the compressed stream and the command line. A
-- source that returns fewer bytes than it has room and bytes for is not considered. A slice of the model shares no memory with another one but where the code
-- compares their first addresses, and a transform does not write into its source.
pub mod Base
pub mod Internal
pub mod Transform
pub mod Bitstream
pub mod Entropy
