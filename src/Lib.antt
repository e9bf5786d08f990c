-- ===== src/Lib.antt =====
-- Gengo is a script language with an engine that a C program embeds. This library models the C
-- side: the header-only helpers of the SDK, and the hosts that ask a script for a decision or a
-- response; and of the engine itself the table of its instances, the maps of its values, and the
-- conversion of values to wires and back. The hosts are what meets the outside: a script that fails,
-- an engine that is closed and bytes that are malformed must end in a refusal, inside the buffers.
--
-- The parts, and where they are:
--   Wire: sdk/c/include/gengo-wire.h, the values that cross the border of the engine, with the
--     struct and the tags of sdk/c/include/gengo-engine.h. Wire/Strings, Wire/Numbers and
--     Wire/Containers prove what the readers give on what the constructors build.
--   Engine: the calls of gengo-engine.h that the hosts make, as a record that the hosts take as a
--     parameter: `call` is `engine_call`, `run` is `engine_run`, `run_path` is `engine_run_path`,
--     `reset` is `engine_reset` and `last_error` is `engine_last_error`. Nothing is assumed of
--     it but where a theorem names a hypothesis. Engine/Sample has two concrete engines for the tests.
--   Stdio: `fread`, `fwrite` and `fflush` on lists of bytes. Output takes a given room and then fails.
--   Fastcgi: examples/fastcgi-host/main.c. Fastcgi/Reader is `read_exact`, `read_record_header` and
--     `discard_exact`; Fastcgi/Writer is `write_record`, `send_end` and `send_error`; Fastcgi/Params
--     is `decode_length`, `copy_param` and `parse_params`; Fastcgi/Server is `run_request` and the
--     loop of `main`, one function for each type of record. Fastcgi/RoundTrip and Fastcgi/Stream
--     join reader and writer, Fastcgi/Server/Reassembly and Fastcgi/Server/Calls the whole path, and
--     Fastcgi/Main is `main` around the loop.
--   Acl: examples/mosquitto-acl/plugin.c. The callbacks stand in Acl, init and cleanup in
--     Acl/Lifecycle; the globals of the plugin are the record `Plugin`.
--   Sqlite: examples/sqlite-policy/main.c, the two SQL functions and the buffer of the reason.
--     Sqlite/Demo is `main` with its table of orders; the calls of SQLite are a record that it takes, and
--     Sqlite/Demo/Triggers says what it does with the triggers.
--   Firmware: examples/firmware-gate-c/main.c, the decision loop and `main`.
--   Bundle: examples/bundle-c/main.c; what loads the package is a parameter.
--   CEngine: add.c and composite.c of tools/site-builder/fixtures/c_engine.
--   Instances: the table of engines behind the handles, of src/engine.zig: `engine_init`,
--     `engine_init_with_config`, `getEngine` and `engine_destroy`.
--   Vm: the maps of the virtual machine, src/lang/vm_map.zig. Vm/Key is what a map asks of its keys,
--     with keys of some kinds as an instance in Vm/Key/Value; Vm/Table is the hashed table
--     (`mapFindHashedIndex`, `mapBuildHashedBuckets`, `mapInsertHashed`), and Vm/Map the operations on
--     an object over its representations (`mapGet`, `mapHas`, `mapSet`, `mapDelete`).
--   Bytecode: what is checked of bytecode before it runs. Bytecode/Op is src/lang/op.zig, Bytecode/Decoder
--     `decodeAt` of src/lang/chunk_decoder.zig; Bytecode/Effect, Bytecode/Scan, Bytecode/Walk and
--     Bytecode/Verifier are `stackEffect`, the two loops over the instructions, `BfsRunner.run` and `verify`
--     of src/lang/chunk_verifier.zig. Paths of the machine, but for the second jump of
--     get_local_const_lt_jif_pop_jump, which the decoder drops, are the relation of Bytecode/Walk/Paths.
--   Tasks: the tasks of the machine and their scheduler: src/lang/task_state.zig, `send` of
--     src/lang/vm_task.zig, `spawnTask` and `task_receive` of src/lang/vm.zig and `driveTaskScheduler` of
--     src/runtime/runtime.zig. A run is the relation of Tasks/Order, over what the tasks ask for; the
--     invariant of the table stands in Tasks/Invariant. `claimSlot` reads the 63 slots in order.
--   Convert: `valueToWireDepth` and `wireToValueDepth` of src/engine.zig, with `bump` of
--     src/runtime/heap.zig. Convert/Plain is the reading, Convert/Fits says which values are accepted,
--     Convert/RoundTrip and Convert/Depth have the proofs. Convert/Scratch is `setStringScratch` and
--     `valueToWireWithScratch`, what `engine_call` answers; Convert/Scratch/Readers joins it with the
--     readers of Wire.
--   Prelude: names of the libraries, tests on numbers, and lemmas on lists, bits and texts.
--
-- Machine integers: a byte, a 16-bit and a 32-bit field are natural numbers with the reduction of
-- the C code written out; an `int64_t` and a `double` are their 64 bits. A buffer is the list of
-- its bytes, or of the bytes up to its length field. A C string is the bytes before its NUL.
--
-- Fuel: every loop of the C code that is not a walk along a list takes fuel. `serve` has the length
-- of the input and a record takes eight bytes of it at least; `parse_params` has the length of the
-- parameters; `write_record` has the length of the buffer, or one round for a NULL buffer;
-- `discard_exact` has its length; `strlen` has the rest of the address space. The probes of a hashed
-- table have the number of its buckets, as in the code; the doubling of `mapBucketsForCount` has the
-- number it has to reach; the loops of `verify` have the length of the code, and its walk two rounds for
-- each byte of it and one more; the reading of wires has the levels that are left to MaxWireDepth.
--
-- Not modelled: of the engine (src/, in Zig) the compiler, the machine, the collector and the rest of
-- the heap; `mapKeyEquals` and `mapHashValue` as a whole (they do not agree on floats, big integers and
-- variants, and a table needs that they do); variants that are converted; when an allocation of the
-- conversion from wires is refused; what a task executes, and the sleep of a task; what the hosts log to standard error, SQLite itself, tools/ffi_test_lib.c,
-- and the bindings and examples in other languages.
pub mod Prelude
pub mod Stdio
pub mod Wire
pub mod Engine
pub mod Fastcgi
pub mod Acl
pub mod Sqlite
pub mod Firmware
pub mod Bundle
pub mod Bytecode
pub mod CEngine
pub mod Instances
pub mod Convert
pub mod Tasks
pub mod Vm
