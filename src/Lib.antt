-- ===== src/Lib.antt =====
-- The iRODS C++ client library: a model of its core logic and what is proved of it.
--
-- The library connects to an iRODS server, negotiates and authenticates, packs requests and unpacks
-- answers, and offers a filesystem-like interface above that. This development models the parts that
-- compute by themselves: the encodings of passwords and of binary data, the text formats in which
-- resources and properties are kept, the keyword-value lists that every request carries, the logical
-- paths, the packing of members of structures, the bookkeeping of the connection pool, and the choice
-- between TLS and TCP. The parts are independent in the source, but for the hierarchy parser, which
-- reads its text by the tokenizer, and the model composes them in the same way.
--
-- Where each part is modelled, and what stands for what:
--
-- Base: what all parts share. A C string and a std::string are the list of their bytes (Bytes), a
--   NUL-terminated one without its NUL; a std::map from strings is the list of its entries in the
--   order of their keys (Base.Dict); signed integers are Base.Int; a function that can fail answers
--   a Result, or an error beside what it leaves behind.
-- Obf: src/core/src/obf.cpp. Obf.Wheel is the wheel of characters with the search in it; Obf.Key is
--   obfMakeOneWayHash, obfEncodeByKey (obf_encode_by_key) and obfDecodeByKey (obf_decode_by_key);
--   Obf.Password is obfiTimeval, obfiTimeCheck, obfiEncode and obfiDecode. MD5 and SHA1 of OpenSSL,
--   the globals defaultHashType and cipherBlockChaining, the clock and the user id are arguments.
-- Base64: src/core/src/base64.cpp. base64_encode and base64_decode with the sizes of their buffers;
--   the variables t, y, g of the decoder's loop are the record State, one round of it is `step`.
-- Kvp: src/core/src/irods_kvp_string_parser.cpp. parse_kvp_string, parse_escaped_kvp_string and
--   escape_string. Boost's starts_with and split are the argument `boost`, of which a theorem assumes
--   what Boost documents.
-- Tokenize: src/core/src/irods_string_tokenize.cpp. string_tokenize, its loop on fuel.
-- Hierarchy: src/core/src/irods_hierarchy_parser.cpp. The class hierarchy_parser is the record of its
--   list of resources; it takes its text apart by Tokenize.
-- Children: src/core/src/irods_children_parser.cpp. The class children_parser is its map; the loop of
--   set_string is on fuel.
-- KeyVal: getValByKey, addKeyVal, rmKeyVal, replKeyVal and clearKeyVal of src/core/src/rcMisc.cpp. The
--   two arrays of a keyValPair_t are one list of slots with the size that is allocated for both, so
--   that a write beyond it can be told.
-- FsPath: src/filesystem/path.cpp and include/filesystem/include/filesystem/path.hpp. A path is its
--   string; FsPath.Iteration is path::iterator by its position and its element, FsPath the operations
--   of the class, whose loops over the elements are on fuel.
-- Pool: src/core/src/connection_pool.cpp and include/connection_pool.hpp. create_connection,
--   verify_connection and refresh_connection on one context, with what the server and the clock answer
--   as an argument; get_connection, the destructor and the assignment of a proxy as steps of threads
--   that interleave (Pool.Exclusive.Step). A try of an index is one step, since the code makes it under
--   the lock of the context; the refresh ends in another step, and the lock is held in between.
-- Negotiation: src/core/src/irods_client_negotiation.cpp. client_server_negotiations_context: its map
--   from a policy to an index, which changes when it is asked, its table, and the choice.
-- Pack: src/core/src/packStruct.cpp, src/core/include/alignPointer.hpp, and myHtonll of rcMisc.cpp.
--   Pack.Escape is strToXmlStr and xmlStrToStr; Pack.Output is packedOutput_t and extendPackedOutput;
--   Pack.Native is packNatString, unpackNatString, packInt, packInt16, packDouble and their unpacking
--   in the native protocol; Pack.Xml is packXmlTag, parseXmlTag, parseXmlValue, packXmlString,
--   unpackXmlString and unpackXmlStringToOutPtr; Pack.Instruct is copyStrFromPiBuf, packTypeLookup and
--   parsePackInstruct, whose list of items has the members that it sets; a token that does not fit in
--   its buffer is the error buffer_overrun. Memory is bytes, on a machine with the low byte of an
--   integer first; `realloc` is an argument that tells which sizes can be had. A routine that ignores
--   that memory was not had stops with that error in the model. Sizes are far below 2^31.
-- Arrays: addInxIval, addInxVal, addRErrorMsg, addStrArray, their clearing functions, parseMultiStr
--   and splitMultiStr of src/core/src/rcMisc.cpp, with rstrcpy of stringOpr.cpp. An array is the list
--   of its allocated slots; the flat text of a strArray_t is the list of its rows.
-- RodsPath: parseRodsPath of src/core/src/rodsPath.cpp, on strings shorter than the arrays of a
--   rodsPath_t; its loops are on fuel.
-- DateFormat: isInteger and checkDateFormat of src/core/src/rcMisc.cpp; localToUnixTime is an argument,
--   and the products of seconds are taken without the overflow of an int.
-- StringOpr: isAllDigit and splitPathByKey of src/core/src/stringOpr.cpp, on buffers by the text in them.
--
-- Loops: a loop over a string is structural recursion. Where the source moves a position by more than
-- one, the recursion is on fuel, and the fuel is the length of the string, or one more: every round
-- takes at least one character. That this is enough is part of the theorems on the tokenizer and on
-- set_string of the children parser, which compare the loop with a description without fuel, of the
-- one on the path iterator, which states besides that the increments get to end(), and of the ones on
-- xmlStrToStr, on parsePackInstruct, on parseRodsPath and on the strings of an array. The search of
-- get_connection is given the number of places that it may look at.
-- Reads behind the end of a string, which the source does in places, are given the value that C has
-- there (the NUL) where there is one; a read through a NULL keyword is the error null_keyword.
-- Arithmetic on the 16-bit clock keeps its remainder.
--
-- Not modelled: what talks to the network, the disk, the terminal, OpenSSL or other plugins (connection
-- and authentication, rodsLog, the environment files, the password file), the packing tables, the
-- traversal of structures in memory, and the wrappers of single requests in src/api, which fill in one structure and call the server.

pub mod Base
pub mod Obf
pub mod Base64
pub mod Kvp
pub mod Tokenize
pub mod Hierarchy
pub mod KeyVal
pub mod FsPath
pub mod Children
pub mod Pool
pub mod Negotiation
pub mod Pack
pub mod Arrays
pub mod RodsPath
pub mod DateFormat
pub mod StringOpr
