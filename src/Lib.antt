-- ===== src/Lib.antt =====
-- UnifiedORAMHub: oblivious memory. A client keeps blocks on a server that sees encrypted buckets
-- of a binary tree only. The repository has three protocols (Path ORAM, Ring ORAM and Onion Ring
-- ORAM) over shared blocks, serializer, cipher and network.
--
-- Files and the code they model (paths from the repository's root):
--   Base         lists, options, results and a state monad with exceptions
--   Core         include/oram/core, src/core: blocks, buckets and the serializer of buckets
--   Crypto       src/crypto/AES_CTR.cpp: CipherOperation, encryption and the counter
--   Tree         the bucket indices of a path, which every protocol computes for itself
--   PathOram     src/path_oram: Storage and Server are PathORAMServer.cpp, Stash and Client are
--                PathORAMClient.cpp, Buckets is what both have. Invariant, Step and Refinement are
--                about the protocol as a memory, Start about its beginning
--   Ring         src/ring_oram: Format is RingBucket.cpp's wire format, Storage and Server are
--                RingORAMServer.cpp; Bucket, Fetch, Stash and Xor are parts of RingBucket.cpp and
--                RingORAMClient.cpp, and Read puts a path read of client and server together
--   Onion        src/onion_ring: Tfhe is the TFHE library as a parameter, Torus the errors of its
--                numbers, HomOps and Adapter are HomOps.cpp and TFHEAdapter.cpp, Waksman is
--                WaksmanNetwork.cpp, Slots and Server are OnionRingServer.cpp, and Ids, Rebuild and
--                Client are OnionRingClient.cpp. The children of Waksman are about sorting by
--                exchanges, those of Server about the shape of its tree, those of Client about the
--                protocol as a memory
--   Tests        concrete runs
--
-- A client and a server make one `World`; a message is a call of the server's handler with the
-- values that both sides exchange. Exceptions are the errors of `Result`, and what a function has
-- changed stays changed when it throws. Undefined behaviour is the error `undefined`.
--
-- Fuel: the loop of GetPathIndices runs on its start index plus one, because the index at least
-- halves; the padding of a bucket runs on the bucket's capacity. Sizes of vectors and indices are
-- exact natural numbers: heights are below 63, so that no index of a node wraps, and a vector is
-- shorter than 2 ^ 64 bytes where the serializer writes its length.
--
-- CipherOperation casts the length to a 32-bit `int`, and the model keeps the cast and the three
-- errors around it. What is said of encrypted messages is therefore for data of less than
-- `data_limit` bytes in a block, so that a bucket of Path ORAM stays below 2 ^ 31 bytes, and for a
-- block size of Ring ORAM below 2 ^ 31. The predicates on buckets take the limit as an argument, and
-- where nothing is encrypted it is arbitrary, up to the 2 ^ 64 bytes of the format.
--
-- Parameters: OpenSSL's calls for CTR mode (`CtrCipher`: whether initialisation and end succeed,
-- which they do for a vector of 16 bytes; what an update writes for a length that is not negative
-- as an `int`, while nothing is known of a negative one; the output is an involution that keeps the
-- length), random leaves, random vectors and the random data of dummies, which are arguments of the
-- functions that draw them; the standard library's generator and its shuffle (`Random`); TFHE
-- (`Tfhe`, with the laws `TfheLaws`: phases are linear, an external product and a fresh encryption
-- have a bounded error, and a phase decrypts to the nearest message). A server of Path or Ring ORAM
-- has a flag that says whether its files can be written.
--
-- Not modelled: the memory that `reserve` asks for; of Ring ORAM's client the encryption of whole
-- buckets and the schedule of evictions; the layer of AES in a slot of Onion Ring ORAM, which nothing
-- uses, and HomOps.cpp's Subs, which nothing calls; the ownership of TFHE's samples and keys;
-- sockets, file names, key generation, the program main.cpp.
pub mod Base
pub mod Core
pub mod Crypto
pub mod Tree
pub mod PathOram
pub mod Ring
pub mod Onion
pub mod Tests
