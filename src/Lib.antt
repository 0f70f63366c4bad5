-- ===== src/Lib.antt =====
-- BlockType is a compiler for C++ with keywords in two languages. This development models the parts
-- of it that keep the text of a program, the names in it and the functions that its calls mean, the
-- types, tables and integers of its intermediate representation, and what has to be computed again
-- when something changes.
--
-- Texts. `Utf8` is src/Unicode/UTF8.cpp: the strict decoder and encoder of one code point.
-- `Validator` is src/Basic/UTF8Validator.cpp: the scalar validator of whole texts, and the search
-- for the first byte that is not valid. A text is a list of bytes, a byte is a number below 256,
-- and a pointer into a text is the list that is left. Shifts keep 32 bits, as the code does. Both
-- loops of the validator run on the length of the text as fuel; each round takes a byte at least,
-- and the theorems about them have no hypothesis on the fuel.
--
-- `Validator.Sse2` has the SSE2 variants; the bytes behind the text, which their loads can read,
-- are an argument.
--
-- Locations. `Source.Location` is include/blocktype/Basic/SourceLocation.h, a 64-bit word of a file
-- number and an offset; `Source.File` is `FileInfo` and `Source.Manager` is `SourceManager` of
-- src/Basic/SourceManager.cpp. The casts to `unsigned` are written out as remainders of 2 ^ 32.
--
-- Names. `Sema.Decls` has the declaration kinds of include/blocktype/AST/NodeKinds.def and the
-- `classof` tests of include/blocktype/AST/Decl.h. `Sema.Scope` is src/Sema/Scope.cpp: a scope with
-- its parents is a list. `Sema.SymbolTable` is src/Sema/SymbolTable.cpp, and `Sema.Names` is the
-- way in which include/blocktype/Sema/Sema.h and src/Sema/Sema.cpp use both: a declaration goes to
-- the innermost scope, and from the scope of the translation unit to the global table; a name is
-- looked for in the chain of scopes and then in the global table.
--
-- Queries. `Query` is the part of src/IR that decides what is computed again: `Query.Graph`,
-- `Query.Hash`, `Query.Transitive` and `Query.Cycle` are src/IR/DependencyGraph.cpp (the tables,
-- the fingerprints, getTransitiveDependents, hasCycle), `Query.Marks` is src/IR/RedGreenMarker.cpp
-- and `Query.Context` is the cache of src/IR/QueryContext.cpp, which asks the graph what an
-- invalidation reaches. The walk runs on as many rounds as there are direct dependents and edges,
-- the search for cycles on twice the edges and one for each start, since every round takes a node
-- off a list or passes an edge. The depth of the recursion of tryMarkGreen is an argument.
--
-- Conversions and overloads. `Sema.Types` has the types of include/blocktype/AST/Type.h as
-- conversions tell them apart, and the bases of classes. `Sema.Conversion` is
-- src/Sema/Conversion.cpp: the tests of promotions and qualifiers in `Sema.Conversion` itself,
-- GetStandardConversion, GetConversion and the user-defined conversions in
-- `Sema.Conversion.Sequences`, isStandardConversion in `Sema.Conversion.Standard`, the order of
-- sequences in `Sema.Conversion.Ranks`. `Sema.Overload` is src/Sema/Overload.cpp: viability and
-- comparison, and in `Sema.Overload.Resolve` the passes of resolve. The arguments of a call are
-- their types, a type has its address, the search for a base runs over the list of classes, in
-- which the bases of a class stand behind it, and the comparison of the constraints of two
-- templates is a parameter.
--
-- Tables and wide integers. `Adt.DenseMap` is include/blocktype/IR/ADT/DenseMap.h: a list of
-- buckets, with the hash function as a parameter; its loops run on the number of buckets, as the
-- code's do, and the calls of destructors are not represented. `Adt.ApInt` is
-- include/blocktype/IR/ADT/APInt.h: a width and its words of 64 bits, the lowest first, each word
-- cut to 64 bits where the code's arithmetic wraps; `Adt.ApInt.Ops` has its sums, differences,
-- products and bitwise operations.
--
-- Responses. `Ai.ResponseCache` is src/AI/ResponseCache.cpp: find, insert and cleanup, at times
-- that are arguments, with the key of a request in place of the request; the loop that evicts runs
-- on the number of entries, since each round erases one. The entries stand in the order of their
-- insertion, where the code goes through them in the order of hashes.
--
-- Types. `Ir.Types` is src/IR/IRType.cpp with include/blocktype/IR/IRType.h: when two types are
-- equal, their sizes and alignments for a target with pointers of a given size, and the fields of
-- structs.
--
-- `Prelude` holds what the parts share: Boolean tests, lists over the native numbers, bits of
-- words, finite maps, integers. The other parts take `llvm::StringMap`, `std::map` and `DenseMap`
-- for association lists with one entry for each key; the loop over such a table in hasCycle takes
-- it in its order. A declaration is a record of what these parts read of it, and a pointer to a
-- declaration or a file is its value, since no part changes one behind a pointer.
--
-- Not modelled: the NEON variants of the validator, the lexer, the parser, the AST beyond the kinds
-- and types, type checking and templates, the division, the shifts and the sign extension of wide
-- integers, the iterators and copies of hash tables, code generation, and everything that reads or
-- writes files or the network; dumps and printed messages.
pub mod Adt
pub mod Ai
pub mod Prelude
pub mod Utf8
pub mod Validator
pub mod Source
pub mod Sema
pub mod Query
pub mod Ir
